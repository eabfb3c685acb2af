-- ===== src/Gdbc/Build/Names.antt =====
-- The names of the executables in the table of processes.
use http_web_server_c.Gdbc.Numbers.Laws.{digits_value-decimal}
use http_web_server_c.CString.{codes, Bytes}
use http_web_server_c.Gdbc.Numbers.{digits_value}
use http_web_server_c.Http.Response.{decimal}
use http_web_server_c.Gdbc.Build.{executable_filename}
use http_web_server_c.Base.{
  ℕ, zero, suc, ◌+◌, ◌-◌, ◌*◌, ◌<◌, ◌≡◌, refl, sym, ap, ◌∙◌, ◌≢◌, Option, none, some, List, [], ◌∷◌,
  ◌++◌, arith, drop,
}
use http_web_server_c.Gdbc.Processes.{path, ProcessRunning, FilePath, put}

digits_value_stops : (n : ℕ) (s t : Bytes) → digits_value n (s ++ b'.' ∷ t) ≡ digits_value n s
digits_value_stops n [] t = refl
digits_value_stops n (c ∷ s) t = rw (digits_value_stops (n * 10 + (c - b'0')) s t) refl

-- The number in the name of an executable.
abbrev number_in : Bytes → ℕ
number_in name = digits_value 0 (drop 5 name)

number_in-executable_filename : (n : ℕ) → number_in (executable_filename n) ≡ n
number_in-executable_filename n =
    digits_value_stops 0 (decimal n) (codes "out") ∙ digits_value-decimal n

-- The executable of a slot, where its file name is kept.
abbrev pub name_of : FilePath → Option Bytes
name_of (path f) = some f
name_of _ = none

-- No slot of the list has the name.
abbrev pub Unused : Bytes → List ProcessRunning → Type 0
Unused e [] = Unit
Unused e (q ∷ ps) = (name_of q.executable_file_path ≢ some e) × Unused e ps

-- A name that some earlier build gave, and that the other slots do not have.
abbrev pub IsOwn : ℕ → List ProcessRunning → Option Bytes → Type 0
IsOwn c ps none = Unit
IsOwn c ps (some e) = ((k : ℕ) × (k < c) × (e ≡ executable_filename k)) × Unused e ps

-- The executables of the slots were named by the first c builds, no two of them the same.
abbrev pub AllOwn : ℕ → List ProcessRunning → Type 0
AllOwn c [] = Unit
AllOwn c (p ∷ ps) = IsOwn c ps (name_of p.executable_file_path) × AllOwn c ps

Unused-put :
    (e : Bytes) (i : ℕ) (x : ProcessRunning) (ps : List ProcessRunning)
    → name_of x.executable_file_path ≢ some e
    → Unused e ps
    → Unused e (put i x ps)
Unused-put e i x [] n u = tt
Unused-put e zero x (p ∷ ps) n (m, u) = (n, u)
Unused-put e (suc i) x (p ∷ ps) n (m, u) = (m, Unused-put e i x ps n u)

-- A slot that gives its executable up.
pub AllOwn-put_nameless :
    (c i : ℕ) (x : ProcessRunning) (ps : List ProcessRunning)
    → name_of x.executable_file_path ≡ none
    → AllOwn c ps
    → AllOwn c (put i x ps)
AllOwn-put_nameless c i x [] e h = tt
AllOwn-put_nameless c zero x (p ∷ ps) e (o, h) = (rw e tt, h)
AllOwn-put_nameless c (suc i) x (p ∷ ps) e (o, h) =
    (own (name_of p.executable_file_path) o, AllOwn-put_nameless c i x ps e h)
  where
    own : (f : Option Bytes) → IsOwn c ps f → IsOwn c (put i x ps) f
    own none o = tt
    own (some f) (given, u) = (given, Unused-put f i x ps (λ g. cc (e, g)) u)

fresh_name : (c k : ℕ) → k < c → executable_filename k ≢ executable_filename c
fresh_name c k lt e =
    let same : k ≡ c =
      sym (number_in-executable_filename k) ∙ ap number_in e ∙ number_in-executable_filename c in
    omega (arith, lt, same)

Unused-fresh : (c : ℕ) (ps : List ProcessRunning) → AllOwn c ps → Unused (executable_filename c) ps
Unused-fresh c [] h = tt
Unused-fresh c (p ∷ ps) (o, h) = (unlike (name_of p.executable_file_path) o, Unused-fresh c ps h)
  where
    unlike : (f : Option Bytes) → IsOwn c ps f → f ≢ some (executable_filename c)
    unlike none o g = cc
    unlike (some f) ((k, lt, e), u) g = fresh_name c k lt (cc (e, g))

IsOwn-later :
    (c : ℕ) (ps : List ProcessRunning) (f : Option Bytes) → IsOwn c ps f → IsOwn (c + 1) ps f
IsOwn-later c ps none o = tt
IsOwn-later c ps (some f) ((k, lt, e), u) = ((k, omega (arith, lt), e), u)

AllOwn-later : (c : ℕ) (ps : List ProcessRunning) → AllOwn c ps → AllOwn (c + 1) ps
AllOwn-later c [] h = tt
AllOwn-later c (p ∷ ps) (o, h) =
    (IsOwn-later c ps (name_of p.executable_file_path) o, AllOwn-later c ps h)

-- A slot that gets the next name.
pub AllOwn-put_fresh :
    (c i : ℕ) (x : ProcessRunning) (ps : List ProcessRunning)
    → name_of x.executable_file_path ≡ some (executable_filename c)
    → AllOwn c ps
    → AllOwn (c + 1) (put i x ps)
AllOwn-put_fresh c i x [] e h = tt
AllOwn-put_fresh c zero x (p ∷ ps) e (o, h) =
    (rw e ((c, omega arith, refl), Unused-fresh c ps h), AllOwn-later c ps h)
AllOwn-put_fresh c (suc i) x (p ∷ ps) e (o, h) =
    (own (name_of p.executable_file_path) o, AllOwn-put_fresh c i x ps e h)
  where
    own : (f : Option Bytes) → IsOwn c ps f → IsOwn (c + 1) (put i x ps) f
    own none o = tt
    own (some f) ((k, lt, g), u) =
        ((k, omega (arith, lt), g), Unused-put f i x ps (λ d. fresh_name c k lt (cc (e, g, d))) u)
