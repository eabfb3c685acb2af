-- ===== src/Json/Object/Total.antt =====
-- `parse_json` on any text: it ends, and what it returns is a valid object.
use http_web_server_c.Base.{
  ℕ, zero, suc, ◌+◌, ◌≤◌, ◌<◌, ◌≡◌, refl, ap, ◌⊎◌, inl, inr, false, not, Option, none, some, [],
  ◌∷◌, arith, ◌==◌, if◌then◌else◌, Option-cases, length, drop, Outcome, ok, fault, abort, timeout,
  Ensures, Finishes, Ensures-bind, Finishes-bind, if_both, length-drop-le, length-drop-lt,
}
use http_web_server_c.Table.Laws.{extended-IsValid, extended, append-grow, init-IsValid, IsValid}
use http_web_server_c.Json.Object.{
  after_element, element_at, separator, add_element, Loop, destruct_json_object, parse_elements,
  parse_json,
}
use http_web_server_c.Table.{cleared, init, Table}
use http_web_server_c.CString.{first_char, Bytes}
use http_web_server_c.Json.Element.{
  scan_value, JsonElement, behind_key, from_key, string_value, value_at, with_key, element_value,
  parse_json_element,
}
use http_web_server_c.Json.StringToken.{parse_string_token}
use http_web_server_c.Utility.{find_non_space}
use http_web_server_c.Utility.Slice.{read, substring, trim_end}
use http_web_server_c.Json.StringToken.Bounds.{parse_string_token-Finishes}

read-Finishes : (s : Bytes) (i : ℕ) → Finishes (read s i)
read-Finishes s i = ground arith

trim_end-Finishes : (s : Bytes) (n : ℕ) → Finishes (trim_end s n)
unfolding trim_end
trim_end-Finishes s zero = tt
trim_end-Finishes s (suc n) = ground (arith, trim_end-Finishes s n)

substring-Finishes : (s : Bytes) (i j : ℕ) → Finishes (substring s i j)
unfolding substring
substring-Finishes s i j = ground arith

element_value-Finishes : (s key : Bytes) (i : ℕ) → Finishes (element_value s key i)
unfolding element_value
element_value-Finishes s key i = Finishes-bind (read s i) _ (read-Finishes s i) λ c.
    if_both Finishes (not (c == b'"')) _ _
      (Finishes-bind (trim_end s (scan_value (drop i s) i)) _ (trim_end-Finishes s _)
        λ n. Finishes-bind (substring s i n) _ (substring-Finishes s i n) λ v. tt)
      (Finishes-bind (parse_string_token (drop i s)) _ (parse_string_token-Finishes (drop i s))
        λ o. go o)
  where
    go : (o : Option (ℕ × Bytes)) → Finishes (string_value key i o)
    go none = tt
    go (some (stat, v)) = tt

value_at-Finishes : (s key : Bytes) (i : ℕ) (o : Option ℕ) → Finishes (value_at s key i o)
value_at-Finishes s key i none = tt
value_at-Finishes s key i (some k) = element_value-Finishes s key (i + k)

behind_key-Finishes : (s key : Bytes) (i : ℕ) (o : Option ℕ) → Finishes (behind_key s key i o)
behind_key-Finishes s key i none = tt
behind_key-Finishes s key i (some k) =
    Finishes-bind (read s (i + k)) _ (read-Finishes s (i + k)) λ c.
      if_both Finishes (not (c == b':')) _ _ tt
        (value_at-Finishes s key (i + k + 1) (find_non_space (drop (i + k + 1) s)))

with_key-Finishes : (s : Bytes) (i : ℕ) (o : Option (ℕ × Bytes)) → Finishes (with_key s i o)
with_key-Finishes s i none = tt
with_key-Finishes s i (some (stat, key)) =
    behind_key-Finishes s key (i + stat) (find_non_space (drop (i + stat) s))

from_key-Finishes : (s : Bytes) (o : Option ℕ) → Finishes (from_key s o)
from_key-Finishes s none = tt
from_key-Finishes s (some i) =
    Finishes-bind (parse_string_token (drop i s)) _ (parse_string_token-Finishes (drop i s))
      (with_key-Finishes s i)

parse_json_element-Finishes : (s : Bytes) → Finishes (parse_json_element s)
unfolding parse_json_element
parse_json_element-Finishes s = from_key-Finishes s (find_non_space s)

-- A table of the loop: valid, or cleaned up.
abbrev IsParsed : Table JsonElement → Type 0
IsParsed t = IsValid t ⊎ (t ≡ cleared)

abbrev Keeps : Loop → ℕ → Type 0
Keeps go n =
    (s : Bytes) (t : Table JsonElement) → length s < n → IsValid t → Ensures IsParsed (go s t)

drop-shorter : (g n : ℕ) (s : Bytes) → 0 < n → length s ≤ n → length (drop (g + 1) s) < n
drop-shorter g n [] pos le = omega (arith, length-drop-le {A = ℕ} (g + 1) [])
drop-shorter g n (c ∷ s) pos le =
    omega (arith, length-drop-lt (g + 1) (c ∷ s) (omega arith) (omega arith))

separator-Keeps :
    (go : Loop) (n : ℕ) (after : Bytes) (t : Table JsonElement) (o : Option ℕ)
    → Keeps go n
    → 0 < n
    → length after ≤ n
    → IsValid t
    → Ensures IsParsed (separator go after t o)
unfolding destruct_json_object
separator-Keeps go n after t none k pos le v = tt
separator-Keeps go n after t (some g) k pos le v =
    let c = first_char (drop g after) in
    if_both (Ensures IsParsed) (c == b',') _ _
      (k (drop (g + 1) after) t (drop-shorter g n after pos le) v)
      (if_both (Ensures IsParsed) (c == b'}') _ _ (inl v) (inr refl))

after_element-Keeps :
    (go : Loop) (n : ℕ) (here : Bytes) (t : Table JsonElement) (o : Option (ℕ × JsonElement))
    → Keeps go n
    → 0 < n
    → length here ≤ n
    → IsValid t
    → Ensures IsParsed (after_element go here t o)
unfolding destruct_json_object add_element
after_element-Keeps go n here t none k pos le v = inr refl
after_element-Keeps go n here t (some (stat, x)) k pos le v = rw (append-grow x t v) (
    separator-Keeps go n (drop stat here) (extended x t) (find_non_space (drop stat here)) k pos
      (omega (arith, length-drop-le stat here)) (extended-IsValid x t v))

Ensures-of_Finishes {ℓ} : {A : Type ℓ} (m : Outcome A) → Finishes m → Ensures (λ _. Unit {0}) m
Ensures-of_Finishes (ok a) h = tt
Ensures-of_Finishes fault h = tt
Ensures-of_Finishes abort h = h
Ensures-of_Finishes timeout h = h

element_at-Keeps :
    (go : Loop) (n : ℕ) (here : Bytes) (t : Table JsonElement)
    → Keeps go n
    → 0 < n
    → length here ≤ n
    → IsValid t
    → Ensures IsParsed (element_at go here t)
unfolding destruct_json_object
element_at-Keeps go n here t k pos le v =
    if_both (Ensures IsParsed) (first_char here == b'}') _ _ (inl v) (
      if_both (Ensures IsParsed) (not (first_char here == b'"')) _ _ (inr refl) (
        Ensures-bind (λ _. Unit {0}) IsParsed (parse_json_element here) (after_element go here t)
          (Ensures-of_Finishes (parse_json_element here) (parse_json_element-Finishes here))
          (λ o _. after_element-Keeps go n here t o k pos le v)))

parse_elements-Keeps : (fuel : ℕ) → Keeps (parse_elements fuel) fuel
unfolding parse_elements
parse_elements-Keeps zero s t lt v = absurd (omega arith)
parse_elements-Keeps (suc fuel) [] t lt v = inl v
parse_elements-Keeps (suc fuel) (c ∷ s) t lt v = elim (Option-cases (find_non_space (c ∷ s))) [
  | inl e ↦ rw e (inr refl)
  | inr (f, e) ↦ rw e (
      element_at-Keeps (parse_elements fuel) fuel (drop f (c ∷ s)) t (parse_elements-Keeps fuel)
        (omega arith) (omega (arith, length-drop-le f (c ∷ s))) v)
]

-- NULL, or an object whose items are counted, within its capacity and allocated.
abbrev pub IsObject : Option (Table JsonElement) → Type 0
IsObject none = Unit
IsObject (some t) = IsValid t

-- On every text `parse_json` runs within its fuel: it returns NULL or a valid object, or its
-- behaviour is undefined.
pub parse_json_total : (s : Bytes) → Ensures IsObject (parse_json s)
unfolding parse_json
parse_json_total s = if_both (Ensures IsObject) (not (first_char s == b'{')) _ _ tt (
    Ensures-bind IsParsed IsObject (parse_elements (length s + 1) (drop 1 s) (init 8)) _
      (parse_elements-Keeps (length s + 1) (drop 1 s) (init 8) (omega (arith, length-drop-le 1 s))
        (init-IsValid 8 (omega arith)))
      result)
  where
    result :
        (t : Table JsonElement)
        → IsParsed t
        → Ensures IsObject (ok (if t.capacity == 0 then none else some t))
    result t (inl v) = let e : (t.capacity == 0) ≡ false = ground (arith, v.nonempty) in rw e v
    result t (inr e) =
        let z : t.capacity ≡ 0 = ap (λ (u : Table JsonElement). u.capacity) e in rw z tt
