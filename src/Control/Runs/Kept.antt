-- ===== src/Control/Runs/Kept.antt =====
-- What every run of a session keeps.
use socket_programming.Base.{ℕ, ◌≡◌, refl, sym, Bool, true, false, [], Option, none, some}
use mathlib.Core.List.{append-nil}
use socket_programming.Text.{Text}
use socket_programming.Endpoint.{Endpoint}
use socket_programming.FileSystem.{FilePath, FileSystem}
use socket_programming.FileSystem.Resolver.{Inside}
use socket_programming.FileSystem.Guarded.{Untouched, Guarded, Rooted, Below, Rooted-Guarded}
use socket_programming.Control.ClientSession.{Job}
use socket_programming.Control.State.{State}
use socket_programming.Control.Registry.{Registry}
use socket_programming.Control.Invariant.{IsSafe, JobInside, Channel, idle_Working}
use socket_programming.Control.Invariant.Ends.{worker_ends-IsSafe}
use socket_programming.Control.Invariant.Commands.{HasPassword, execute_command-IsSafe}
use socket_programming.Control.Runs.{start, Step, commanded, finished, Runs, begun, stepped}

-- The paths that a session holds lie below the root.
abbrev pub PendingInside : FilePath → Bool → FilePath → Type 0
PendingInside root false p = Unit {0}
PendingInside root true p = Inside root p

abbrev pub WorkerInside : FilePath → Option Job → Type 0
WorkerInside root none = Unit {0}
WorkerInside root (some j) = JobInside root j

-- An active transfer has a worker.
abbrev pub BusyWith : Bool → Option Job → Type 0
BusyWith false worker = Unit {0}
BusyWith true worker = (j : Job) × (worker ≡ some j)

pending_inside :
    (root : FilePath) (b : Bool) (p : FilePath)
    → (b ≡ true → Inside root p)
    → PendingInside root b p
pending_inside root false p h = tt
pending_inside root true p h = h refl

worker_inside :
    (root : FilePath) (o : Option Job)
    → ((j : Job) → o ≡ some j → JobInside root j)
    → WorkerInside root o
worker_inside root none h = tt
worker_inside root (some j) h = h j refl

-- Whoever is logged in is in the database.
abbrev pub Known : Text → Type 0
Known name = (given : Text) × HasPassword name given

-- What a worker may do keeps `P`.
abbrev pub Allowed : {W : Type 0} → ((W → W) → Type 0) → (W → Type 0) → Type 0
Allowed {W} May P = (work : W → W) → May work → (w : W) → P w → P (work w)

busy_with : (b : Bool) (o : Option Job) → (b ≡ true → (j : Job) × (o ≡ some j)) → BusyWith b o
busy_with false o h = tt
busy_with true o h = h refl

begin-IsSafe :
    (fs : FileSystem) (root : FilePath) (P : fs.W → Type 0) (socket : ℕ) (peer : Endpoint)
    (w : fs.W) (registry : Registry) (id : ℕ)
    → P w
    → IsSafe {fs = fs} root Known P (start socket peer root w registry id)
begin-IsSafe fs root P socket peer w registry id k = (
  record { current = ([], sym (append-nil root)); source = λ e. cc e },
  (λ e. cc e, (refl, (idle_Working root, k))),
)

module _ {fs : FileSystem} (root : FilePath) (May : (fs.W → fs.W) → Type 0)
    (Low : FilePath → Type 0) (P : fs.W → Type 0) (u : Untouched fs root Low P)
    (g : Guarded fs root Low P) (may : Allowed May P) where
  Step-IsSafe :
      (st st' : State fs) → Step root May st st' → IsSafe root Known P st → IsSafe root Known P st'
  Step-IsSafe st _ (commanded answers cmd _ allowed) h =
      execute_command-IsSafe root Known Low P u g answers cmd (may answers.worker_files allowed) st
        (λ is_pass given one right. (given, right)) h
  Step-IsSafe st _ (finished work success message _ allowed active_) h =
      worker_ends-IsSafe root Known P work success message (may work allowed) st h

  Runs-IsSafe :
      (begin st : State fs)
      → Runs root May begin st
      → IsSafe root Known P begin
      → IsSafe root Known P st
  Runs-IsSafe begin _ begun h = h
  Runs-IsSafe begin _ (stepped st st' run step) h =
      Step-IsSafe st st' step (Runs-IsSafe begin st run h)

module _ {fs : FileSystem} (root : FilePath) (May : (fs.W → fs.W) → Type 0) (P : fs.W → Type 0)
    (u : Untouched fs root (Below root) P) (r : Rooted fs root P) (may : Allowed May P) where
  -- From the begin of a session, given that no operation at or below the root takes `P` away, nor the
  -- removal of a path strictly below it, nor a temporary file beside one; that under `P` the root is a
  -- directory that is there; and that the workers, which write the uploads, keep `P`: whatever commands
  -- come and whenever workers end, `P` still holds of the files, and the current directory, the pending
  -- path of RNFR and the file of the worker lie at the root or below it.
  pub Runs-Confined :
      (socket : ℕ) (peer : Endpoint) (w : fs.W) (registry : Registry) (id : ℕ) (st : State fs)
      → P w
      → Runs root May (start socket peer root w registry id) st
      → (P st.files × Inside root st.session.current_dir)
        × (PendingInside root st.session.has_pending_rename st.session.pending_rename_source
            × WorkerInside root st.session.transfer_worker)
  Runs-Confined socket peer w registry id st k run =
      let (places, (login, (channel, (working, kept)))) =
        Runs-IsSafe root May (Below root) P u (Rooted-Guarded fs root P r) may
          (start socket peer root w registry id) st run
          (begin-IsSafe fs root P socket peer w registry id k) in
      (
        (kept, places.current),
        (pending_inside root _ _ places.source, worker_inside root _ working.work),
      )

-- Of the files, nothing is asked.
abbrev pub Anything : {W : Type 0} → W → Type 0
Anything w = Unit {0}

module _ {fs : FileSystem} (root : FilePath) (May : (fs.W → fs.W) → Type 0) where
  open fs use {W}

  pub anything : Untouched fs root (Inside root) Anything
  anything = record {
    create = λ p w i k. tt;
    remove = λ p w i k. tt;
    rename = λ p q w i j k. tt;
    create_new = λ p w i k. tt;
    temporary = λ p w i k. tt;
    unstage = λ p q w w' i e k. tt;
  }

  pub unguarded : Guarded fs root (Inside root) Anything
  unguarded = record {
    inside = λ p i. i;
    other = λ p i e. i;
    no_directory = λ p w i k e. i;
    no_other_kind = λ p w i k e. i;
    created = λ p w i k e. i;
  }

  pub always_safe :
      (socket : ℕ) (peer : Endpoint) (w : W) (registry : Registry) (id : ℕ) (st : State fs)
      → Runs root May (start socket peer root w registry id) st
      → IsSafe root Known Anything st
  always_safe socket peer w registry id st run =
      Runs-IsSafe root May (Inside root) Anything anything unguarded (λ work allowed w k. tt)
        (start socket peer root w registry id) st run
        (begin-IsSafe fs root Anything socket peer w registry id tt)

  -- In a run from the begin of a session, whoever is logged in has an entry in the table of users.
  pub Runs-Known :
      (socket : ℕ) (peer : Endpoint) (w : W) (registry : Registry) (id : ℕ) (st : State fs)
      → Runs root May (start socket peer root w registry id) st
      → st.session.authenticated ≡ true
      → Known st.session.username
  Runs-Known socket peer w registry id st run =
      let (places, (login, rest)) = always_safe socket peer w registry id st run in login

  -- In a run from the begin of a session, the data channel's mode agrees with what the session holds:
  -- without a mode there is no socket, after PASV there is one, and after PORT there is none and the
  -- address is the control connection's with a port other than 0; and an active transfer has a worker.
  pub Runs-Channel :
      (socket : ℕ) (peer : Endpoint) (w : W) (registry : Registry) (id : ℕ) (st : State fs)
      → Runs root May (start socket peer root w registry id) st
      → Channel st.session.data_channel_mode st.session.pending_data_socket
          st.session.pending_peer_addr st.session.control_peer_addr
        × BusyWith st.session.transfer_active st.session.transfer_worker
  Runs-Channel socket peer w registry id st run =
      let (places, (login, (channel, (working, kept)))) =
        always_safe socket peer w registry id st run in
      (channel, busy_with _ _ working.busy)
