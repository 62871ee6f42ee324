-- ===== src/Dlq/Routing.antt =====
-- Where entries go: to the file while it is open, and to the log otherwise.
use xyllo.Base.{
  codes, ==_iff, Bool, true, false, some, List, [], ◌∷◌, ◌++◌, ◌≡◌, ◌≢◌, ◌↔◌, ◌⊎◌, refl, arith, ap,
}
use mathlib.Core.List.{append-nil, append_assoc}
use xyllo.Config.{DlqConfig}
use xyllo.Dlq.{Entry, LogLine, entry_line, write_error, Dlq, new, store, close}

-- Several calls of Push, one after another, each with what becomes of its write to the file.
unfoldable pub store_all : List (Bool × Entry) → Dlq → Dlq
store_all [] d = d
store_all ((writes, e) ∷ es) d = store_all es (store writes e d)

-- The entries whose writes succeed, the notices of the others, and all entries as lines of the log.
unfoldable pub written_of : List (Bool × Entry) → List Entry
written_of [] = []
written_of ((true, e) ∷ es) = e ∷ written_of es
written_of ((false, e) ∷ es) = written_of es

unfoldable pub notices_of : List (Bool × Entry) → List LogLine
notices_of [] = []
notices_of ((true, e) ∷ es) = notices_of es
notices_of ((false, e) ∷ es) = write_error e.source ∷ notices_of es

unfoldable pub lines_of : List (Bool × Entry) → List LogLine
lines_of [] = []
lines_of ((writes, e) ∷ es) = entry_line e ∷ lines_of es

store_all-open :
    (es : List (Bool × Entry)) (d : Dlq)
    → d.is_open ≡ true
    → store_all es d
      ≡ record d { written = d.written ++ written_of es; logged = d.logged ++ notices_of es }
unfolding store_all store written_of notices_of
store_all-open [] d h = ground (arith, append-nil d.written, append-nil d.logged)
store_all-open ((true, e) ∷ es) d h =
    let rest = store_all-open es (record d { written = d.written ++ e ∷ [] }) h in
    ground (arith, rest, append_assoc d.written (e ∷ []) (written_of es))
store_all-open ((false, e) ∷ es) d h =
    let rest = store_all-open es (record d { logged = d.logged ++ write_error e.source ∷ [] }) h in
    ground (arith, rest, append_assoc d.logged (write_error e.source ∷ []) (notices_of es))

store_all-closed :
    (es : List (Bool × Entry)) (d : Dlq)
    → d.is_open ≡ false
    → store_all es d ≡ record d { logged = d.logged ++ lines_of es }
unfolding store_all store lines_of
store_all-closed [] d h = ground (arith, append-nil d.logged)
store_all-closed ((writes, e) ∷ es) d h =
    let rest = store_all-closed es (record d { logged = d.logged ++ entry_line e ∷ [] }) h in
    ground (arith, rest, append_assoc d.logged (entry_line e ∷ []) (lines_of es))

-- The file is opened for the backend "file" with a target, and for nothing else.
new-is_open_iff :
    (opens : Bool) (cfg : DlqConfig) (d : Dlq)
    → new opens cfg ≡ some d
    → (d.is_open ≡ true) ↔ ((cfg.backend ≡ codes "file") × (cfg.target ≢ []))
unfolding new
new-is_open_iff opens cfg d e =
    ground (arith, ==_iff cfg.backend (codes "file"), ==_iff cfg.target [])

new-empty :
    (opens : Bool) (cfg : DlqConfig) (d : Dlq)
    → new opens cfg ≡ some d
    → (d.written ≡ []) × (d.logged ≡ [])
unfolding new
new-empty opens cfg d e = ground arith

-- A queue with the backend "file" and a target writes the entries whose writes succeed to the file,
-- in order and once; of each other entry only a notice that names its source goes to the log, in
-- order. After Close the entries that follow go to the log, in order, and the file keeps what it has.
pub file-routing :
    (opens closes : Bool) (cfg : DlqConfig) (d : Dlq) (es later : List (Bool × Entry))
    → new opens cfg ≡ some d
    → cfg.backend ≡ codes "file"
    → cfg.target ≢ []
    → ((store_all es d).written ≡ written_of es)
      × ((store_all es d).logged ≡ notices_of es)
      × ((store_all later (close closes (store_all es d)).0).written ≡ written_of es)
      × ((store_all later (close closes (store_all es d)).0).logged
          ≡ notices_of es ++ lines_of later)
unfolding close
file-routing opens closes cfg d es later e backend target =
    let is_open = (new-is_open_iff opens cfg d e).1 (backend, target) in
    let (w, l) = new-empty opens cfg d e in
    let first = store_all-open es d is_open in
    let closed : Dlq = record {
      cfg = d.cfg;
      is_open = false;
      written = written_of es;
      logged = notices_of es;
    } in
    let second = store_all-closed later closed refl in
    rw (first, is_open, w, l)
      (refl, refl, ap (λ (q : Dlq). q.written) second, ap (λ (q : Dlq). q.logged) second)

-- With any other backend, "redis" and "kafka" included, and with "file" but no target, every entry
-- goes to the log, in order, and nothing is ever written; Close changes nothing.
pub other-backends-log :
    (opens closes : Bool) (cfg : DlqConfig) (d : Dlq) (es : List (Bool × Entry))
    → new opens cfg ≡ some d
    → (cfg.backend ≢ codes "file") ⊎ (cfg.target ≡ [])
    → ((store_all es d).written ≡ [])
      × ((store_all es d).logged ≡ lines_of es)
      × (close closes (store_all es d) ≡ (store_all es d, true))
unfolding close
other-backends-log opens closes cfg d es e other =
    let (to, _) = new-is_open_iff opens cfg d e in
    let (w, l) = new-empty opens cfg d e in
    let shut : d.is_open ≡ false = ground arith in
    let all = store_all-closed es d shut in rw (all, shut, w, l) (refl, refl, refl)
