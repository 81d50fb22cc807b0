-- ===== src/Control/Invariant/DataCommands.antt =====
-- The commands of the data channel keep a session safe.
use socket_programming.Base.{
  ℕ, zero, suc, ◌+◌, ◌%◌, ◌^◌, ◌≡◌, refl, sym, subst, ap, Bool, true, false, not, ◌&&◌, List, [],
  ◌∷◌, Option, none, some, ◌==◌, Bool-cases, inl, inr, arith,
}
use mathlib.Core.Option.{some-injective, some-ne-none}
use socket_programming.Text.{Text, codes}
use socket_programming.ReplyCode.{transfer_complete, transfer_aborted}
use socket_programming.Endpoint.{Endpoint}
use socket_programming.FileSystem.{FilePath, FileSystem}
use socket_programming.FileSystem.Resolver.{Inside, resolve, resolve-Inside}
use socket_programming.FileSystem.Directory.{when_some}
use socket_programming.FileSystem.Guarded.{Untouched, Guarded, test_rule, when_some_rule}
use socket_programming.Control.ClientSession.{store, unique, append}
use socket_programming.Control.State.{State, Answers, clear_data_state, join_completed_transfer}
use socket_programming.Control.DataCommands.{
  port_matches_control_peer, parse_port_command, opened, advertised, reserve_unique_upload,
  attempted, upload_reserved, unique_name, pasv, port, retr, stor, stou, appe, abor,
}
use socket_programming.Control.Transfers.{worker_ends}
use socket_programming.Control.Invariant.{
  IsSafe, idle_Working, session_reply-IsSafe, clear_data_state-IsSafe,
  join_completed_transfer-IsSafe,
}
use socket_programming.Control.Invariant.Starts.{
  start_download_transfer-IsSafe, start_upload_transfer-IsSafe,
}
use socket_programming.Control.Invariant.Ends.{worker_ends-IsSafe}
use socket_programming.Control.Invariant.FileCommands.{if_rule}

-- A PORT address that the session accepts is the control connection's, with a port.
matches : (a b p : ℕ) → (a == b && not (p == 0)) ≡ true → (a ≡ b) × ¬ (p ≡ 0)
matches a b p e = ground arith

module _ {fs : FileSystem} (root : FilePath) (A : Text → Type 0) (Low : FilePath → Type 0)
    (P : fs.W → Type 0) (u : Untouched fs root Low P) (g : Guarded fs root Low P) where
  open fs use {W}

  abbrev Good : State fs → Type 0
  Good st = IsSafe root A P st

  abbrev Keeps : (List Text → State fs → State fs) → Type 0
  Keeps command = (args : List Text) (st : State fs) → Good st → Good (command args st)

  cleared : (st : State fs) → Good st → Good (clear_data_state st)
  cleared = clear_data_state-IsSafe root A P

  opened-Good :
      (o : Option (ℕ × ℕ)) (answers : Answers fs) (st : State fs)
      → Good st
      → Good (opened root o answers st)
  opened-Good none answers st h = h
  opened-Good (some (socket, port)) answers st (p, (l, (c, w))) = (p, (l, ((socket, refl), w)))

  pub pasv-Keeps : (answers : Answers fs) → Keeps (pasv root answers)
  unfolding pasv
  pasv-Keeps answers args st h =
      opened-Good answers.opened_port answers (clear_data_state st) (cleared st h)

  abbrev Closed : State fs → Type 0
  Closed st = st.session.pending_data_socket ≡ none

  accepted :
      (peer : Endpoint) (st : State fs)
      → Closed st
      → Good st
      → Good (advertised root (some peer) st)
  accepted peer st closed_ (p, (l, (c, w))) =
      elim (Bool-cases (port_matches_control_peer st.session peer)) [
        | inl e ↦ rw e (p, (l, ((closed_, matches _ _ _ e), w)))
        | inr e ↦ rw e (p, (l, (c, w)))
      ]

  advertised-Good :
      (o : Option Endpoint) (st : State fs) → Closed st → Good st → Good (advertised root o st)
  advertised-Good none st closed_ h = h
  advertised-Good (some peer) st closed_ h = accepted peer st closed_ h

  pub port-Keeps : (answers : Answers fs) → Keeps (port root answers)
  unfolding port
  port-Keeps answers [] st h = advertised-Good none (clear_data_state st) refl (cleared st h)
  port-Keeps answers (arg ∷ []) st h =
      advertised-Good (parse_port_command answers.scanned arg) (clear_data_state st) refl
        (cleared st h)
  port-Keeps answers (arg ∷ more ∷ args) st h =
      advertised-Good none (clear_data_state st) refl (cleared st h)

  -- A command on a path: it may do what is safe with a path below the root.
  on_path :
      (name : Text) (st x : State fs) (rest : FilePath → State fs)
      → Good x
      → ((p : FilePath) → Inside root p → Good (rest p))
      → Good (when_some (resolve fs root st.files st.session.current_dir name) x rest)
  on_path name st x rest h go =
      when_some_rule Good (resolve fs root st.files st.session.current_dir name) x rest h
        λ p e. go p (resolve-Inside fs root st.files st.session.current_dir name p e)

  pub retr-Keeps : (answers : Answers fs) → Keeps (retr root answers)
  unfolding retr
  retr-Keeps answers [] st h = h
  retr-Keeps answers (name ∷ []) st h = on_path name st _ _ (cleared st h) λ p i.
      if_rule Good _ _ _ (cleared st h)
        (start_download_transfer-IsSafe root A Low P u g answers p i st h)
  retr-Keeps answers (name ∷ more ∷ args) st h = h

  pub stor-Keeps : (answers : Answers fs) → Keeps (stor root answers)
  unfolding stor
  stor-Keeps answers [] st h = h
  stor-Keeps answers (name ∷ []) st h = on_path name st _ _ (cleared st h) λ p i.
      test_rule Good _ _ _ (λ is_dir. cleared st h)
        λ no_dir.
          start_upload_transfer-IsSafe root A Low P u g answers p store []
            (g.no_directory p st.files i h.1.1.1.1 no_dir) st h
  stor-Keeps answers (name ∷ more ∷ args) st h = h

  pub appe-Keeps : (answers : Answers fs) → Keeps (appe root answers)
  unfolding appe
  appe-Keeps answers [] st h = h
  appe-Keeps answers (name ∷ []) st h = on_path name st _ _ (cleared st h) λ p i.
      test_rule Good _ _ _ (λ other. cleared st h)
        λ fits.
          start_upload_transfer-IsSafe root A Low P u g answers p append []
            (g.no_other_kind p st.files i h.1.1.1.1 fits) st h
  appe-Keeps answers (name ∷ more ∷ args) st h = h

  -- A reservation: the files keep `P`, and what is reserved is `Low`.
  abbrev Reserved : ℕ × W × Option (FilePath × Text) → Type 0
  Reserved x = P x.1 × ((p : FilePath) (name : Text) → x.2 ≡ some (p, name) → Low p)

  attempted-Reserved :
      (x : W × Bool × Bool) (candidate : FilePath) (name : Text) (id : ℕ)
      (again : ℕ → W → ℕ × W × Option (FilePath × Text))
      → P x.0
      → (x.1 ≡ true → Low candidate)
      → ((w : W) → P w → Reserved (again id w))
      → Reserved (attempted fs x candidate name id again)
  attempted-Reserved (files, true, there) candidate name id again k i more = (
    k,
    λ p other e. subst Low (ap (λ (x : FilePath × Text). x.0) (some-injective _ _ e)) (i refl),
  )
  attempted-Reserved (files, false, true) candidate name id again k i more = more files k
  attempted-Reserved (files, false, false) candidate name id again k i more =
      (k, λ p other e. absurd (some-ne-none _ (sym e)))

  pub reserve_unique_upload-Reserved :
      (left : ℕ) (current_dir : FilePath) (id : ℕ) (w : W)
      → P w
      → Reserved (reserve_unique_upload fs root left current_dir id w)
  unfolding reserve_unique_upload
  reserve_unique_upload-Reserved zero current_dir id w k =
      (k, λ p other e. absurd (some-ne-none _ (sym e)))
  reserve_unique_upload-Reserved (suc left) current_dir id w k =
      let next = (id + 1) % 2 ^ 64 in
      let name = unique_name fs id in
      when_some_rule Reserved (resolve fs root w current_dir name) _ _
        (k, λ p other e. absurd (some-ne-none _ (sym e)))
        λ candidate e.
          let i = resolve-Inside fs root w current_dir name candidate e in
          attempted-Reserved (fs.create_new candidate w) candidate name next
            (reserve_unique_upload fs root left current_dir) (u.create_new candidate w i k)
            (g.created candidate w i k) (reserve_unique_upload-Reserved left current_dir next)

  reserved-Good :
      (x : ℕ × W × Option (FilePath × Text)) (answers : Answers fs)
      → Reserved x
      → (st : State fs) → Good st
      → Good (upload_reserved root x answers st)
  reserved-Good (id, files, none) answers r st (p, (l, (c, (w, k)))) =
      cleared (record st { next_id = id; files = files }) (p, (l, (c, (w, r.0))))
  reserved-Good (id, files, some (resolved, filename)) answers r st (p, (l, (c, (w, k)))) =
      start_upload_transfer-IsSafe root A Low P u g answers resolved unique filename
        (r.1 resolved filename refl) (record st { next_id = id; files = files })
        (p, (l, (c, (w, r.0))))

  pub stou-Keeps : (answers : Answers fs) → Keeps (stou root answers)
  unfolding stou
  stou-Keeps answers [] st h =
      reserved-Good (reserve_unique_upload fs root 10000 st.session.current_dir st.next_id st.files)
        answers
        (reserve_unique_upload-Reserved 10000 st.session.current_dir st.next_id st.files h.1.1.1.1)
        st h
  stou-Keeps answers (arg ∷ args) st h = h

  -- A session without a worker.
  pub idle :
      (st : State fs)
      → Good st
      → Good (record st {
        session = record st.session { transfer_worker = none; transfer_active = false };
      })
  idle st (p, (l, (c, (w, k)))) = (p, (l, (c, (idle_Working root, k))))

  pub abor-Keeps :
      (answers : Answers fs)
      → ((w : W) → P w → P (answers.worker_files w))
      → Keeps (abor root answers)
  unfolding abor
  abor-Keeps answers keep (arg ∷ args) st h = h
  abor-Keeps answers keep [] st h =
      let stopped = record st { session = record st.session { abort_requested = true } } in
      let waited = worker_ends answers.worker_files false [] stopped in
      let resting = record waited {
        session = record waited.session { transfer_worker = none; transfer_active = false };
      } in
      if_rule Good (not st.session.transfer_active) _ _
        (session_reply-IsSafe root A P transfer_complete (codes "No transfer in progress.")
          (clear_data_state (join_completed_transfer st))
          (cleared (join_completed_transfer st) (join_completed_transfer-IsSafe root A P st h)))
        (session_reply-IsSafe root A P transfer_aborted (codes "Transfer aborted.")
          (clear_data_state resting)
          (cleared resting (
            idle waited
              (worker_ends-IsSafe root A P answers.worker_files false [] keep stopped h))))
