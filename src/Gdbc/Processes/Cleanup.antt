-- ===== src/Gdbc/Processes/Cleanup.antt =====
-- What `cleanup_child_process` leaves of a process whose streams and file names are in order.
use http_web_server_c.Gdbc.Processes.{
  killed, check_pidx, stop_process, log, remove_file, set_process, Service, reaped, removed, Effect,
  FilePath, ProcessRunning, cleanup_child_process, null, freed, path,
}
use http_web_server_c.Base.{
  ℕ, ◌≡◌, refl, sym, ap, ◌∙◌, true, false, some, List, [], ◌∷◌, ◌++◌, append-nil, append_assoc, ok,
  ℤ,
}
use http_web_server_c.Gdbc.Processes.Slots.{IsKept, IsOpen}

abbrev pub removals : FilePath → List Effect
removals null = []
removals freed = []
removals (path f) = removed f ∷ []

abbrev pub released : FilePath → FilePath
released null = null
released freed = freed
released (path f) = freed

abbrev pub ended : ProcessRunning → ProcessRunning
ended p = record {
  pid = p.pid;
  to_child = false;
  from_child = false;
  source_code_path = released p.source_code_path;
  executable_file_path = released p.executable_file_path;
  is_running = false;
}

abbrev pub end_effects : ProcessRunning → List Effect
end_effects p = reaped p.pid ∷ (removals p.executable_file_path ++ removals p.source_code_path)

abbrev pub with_effects : List Effect → Service → Service
with_effects es s = record s { effects = s.effects ++ es }

abbrev pub after_end : ℕ → ProcessRunning → Service → Service
after_end i p s = set_process i (ended p) (with_effects (end_effects p) s)

remove_file_lem :
    (f : FilePath) (s : Service)
    → IsKept f
    → remove_file f s ≡ ok (released f, with_effects (removals f) s)
remove_file_lem null s k =
    ap (λ es. ok (null, record s { effects = es })) (sym (append-nil s.effects))
remove_file_lem freed s k = absurd k
remove_file_lem (path f) s k = refl

pub cleanup_child_process_lem :
    (i : ℕ) (p : ProcessRunning) (s : Service)
    → p.is_running ≡ true
    → IsOpen p
    → cleanup_child_process i p s ≡ ok (after_end i p s)
unfolding cleanup_child_process
cleanup_child_process_lem i p s r o =
    let logged = log (reaped p.pid) s in
    let first = with_effects (removals p.executable_file_path) logged in
    let es : (first.effects ++ removals p.source_code_path) ≡ s.effects ++ end_effects p =
      ap (λ l. l ++ removals p.source_code_path)
        (append_assoc s.effects (reaped p.pid ∷ []) (removals p.executable_file_path))
      ∙ append_assoc s.effects (reaped p.pid ∷ removals p.executable_file_path)
          (removals p.source_code_path) in
    rw
      (
        r,
        o.to_open,
        o.from_open,
        remove_file_lem p.executable_file_path logged o.executable_kept,
        remove_file_lem p.source_code_path first o.source_kept,
        es,
      )
      refl

-- Stopping such a process.
pub stop_process_lem :
    (s : Service) (pidx : ℤ) (i : ℕ) (p : ProcessRunning)
    → check_pidx s pidx ≡ some (i, p)
    → p.is_running ≡ true
    → IsOpen p
    → stop_process true s pidx ≡ ok (after_end i p (log (killed p.pid) s), true)
unfolding stop_process
stop_process_lem s pidx i p e r o =
    rw (e, cleanup_child_process_lem i p (log (killed p.pid) s) r o) refl
