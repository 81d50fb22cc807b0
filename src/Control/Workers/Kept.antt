-- ===== src/Control/Workers/Kept.antt =====
-- The worker of an upload touches nothing outside of the root but its temporary files.
use socket_programming.Base.{◌≡◌, refl, Bool, true, false, not, ◌&&◌, Option, none, some}
use socket_programming.Text.{Text, is_empty}
use socket_programming.FileSystem.{FilePath, FileSystem, create_sibling_temporary_path}
use socket_programming.FileSystem.Resolver.{Inside}
use socket_programming.FileSystem.Guarded.{Untouched, Below}
use socket_programming.Control.ClientSession.{TransferMode, UploadKind, store, unique, append}
use socket_programming.Control.Transfers.{is_unique}
use socket_programming.Control.Invariant.FileCommands.{if_rule}
use socket_programming.Control.Workers.{
  is_binary, cleaned, or_cleaned, existing_bytes, hashed, moved, combine, combine_if,
  append_atomically, UploadIo, received, appended_as, uploaded, remove_staging, remove_failed,
  receive_path, upload_work, add_existing, add_incoming, close_new, hash_and_move,
}

-- A path at which the worker may write and which it may remove and move below the root, as is a temporary
-- file beside a path below the root: `P` stays.
pub record Scratch (fs : FileSystem) (root : FilePath) (P : fs.W → Type 0) (p : FilePath)
    : Type 0 where
  pub truncated : (w : fs.W) → P w → P (fs.truncate p w).0
  pub copied : (q : FilePath) (w : fs.W) → P w → P (fs.copy_into q p w).0
  pub closed_ : (w : fs.W) → P w → P (fs.close_stream p w).0
  pub removed : (w : fs.W) → P w → P (fs.remove p w).0
  pub moved_to : (q : FilePath) (w : fs.W) → Inside root q → P w → P (fs.rename p q w).0

module _ (fs : FileSystem) (root : FilePath) (P : fs.W → Type 0)
    (u : Untouched fs root (Below root) P) where
  open fs use {W}

  -- What `createSiblingTemporaryPath` names is such a path.
  abbrev pub Temporaries : Type 0
  Temporaries =
      (p q : FilePath) (w : W)
      → Below root p
      → (create_sibling_temporary_path fs p w).1 ≡ some q
      → Scratch fs root P q

  abbrev Fine : W × Option Text → Type 0
  Fine x = P x.0

  or_cleaned-Fine :
      (p : FilePath) (c : Scratch fs root P p) (x : W × Bool) (rest : W → W × Option Text)
      → P x.0
      → ((w : W) → P w → Fine (rest w))
      → Fine (or_cleaned fs p x rest)
  or_cleaned-Fine p c (w, true) rest k go = go w k
  or_cleaned-Fine p c (w, false) rest k go = c.removed w k

  existing_bytes-keeps :
      (destination p : FilePath) (c : Scratch fs root P p) (x : Bool × Bool) (w : W)
      → P w
      → P (existing_bytes fs destination p x w).0
  existing_bytes-keeps destination p c (true, true) w k = k
  existing_bytes-keeps destination p c (true, false) w k =
      if_rule (λ (x : W × Bool). P x.0) (not (fs.is_regular_file w destination).0) _ _ k
        (c.copied destination w k)
  existing_bytes-keeps destination p c (false, error) w k = k

  moved-Fine :
      (p : FilePath) (c : Scratch fs root P p) (hash : Text) (x : W × Bool)
      → P x.0
      → Fine (moved fs p hash x)
  moved-Fine p c hash (w, true) k = k
  moved-Fine p c hash (w, false) k = c.removed w k

  combine-Fine :
      (destination incoming : FilePath) (wanted : Bool) (p : FilePath)
      → Below root destination
      → Scratch fs root P p
      → (w : W) → P w
      → Fine (combine fs destination incoming wanted p w)
  combine-Fine destination incoming wanted p i c w k =
      or_cleaned-Fine p c (fs.truncate p w) (add_existing fs destination incoming wanted p)
        (c.truncated w k)
        λ w1 k1.
          or_cleaned-Fine p c (existing_bytes fs destination p (fs.exists w1 destination) w1)
            (add_incoming fs destination incoming wanted p)
            (existing_bytes-keeps destination p c (fs.exists w1 destination) w1 k1)
            λ w2 k2.
              or_cleaned-Fine p c (fs.copy_into incoming p w2) (close_new fs destination wanted p)
                (c.copied incoming w2 k2)
                λ w3 k3.
                  or_cleaned-Fine p c (fs.close_stream p w3) (hash_and_move fs destination wanted p)
                    (c.closed_ w3 k3)
                    λ w4 k4.
                      if_rule Fine (wanted && is_empty (hashed fs wanted p w4)) (cleaned fs p w4)
                        (moved fs p (hashed fs wanted p w4) (fs.rename p destination w4))
                        (c.removed w4 k4)
                        (moved-Fine p c (hashed fs wanted p w4) (fs.rename p destination w4)
                          (c.moved_to destination w4 i.0 k4))

  combine_if-Fine :
      (destination incoming : FilePath) (wanted : Bool) (x : W × Option FilePath)
      → Below root destination
      → ((q : FilePath) → x.1 ≡ some q → Scratch fs root P q)
      → P x.0
      → Fine (combine_if fs x destination incoming wanted)
  combine_if-Fine destination incoming wanted (w, none) i c k = k
  combine_if-Fine destination incoming wanted (w, some q) i c k =
      combine-Fine destination incoming wanted q i (c q refl) w k

  -- `appendAtomically` to a path below the root.
  append_atomically-keeps :
      Temporaries
      → (destination incoming : FilePath) (wanted : Bool) → Below root destination
      → (w : W) → P w
      → Fine (append_atomically fs destination incoming wanted w)
  unfolding append_atomically
  append_atomically-keeps temporaries destination incoming wanted i w k =
      combine_if-Fine destination incoming wanted (create_sibling_temporary_path fs destination w) i
        (λ q e. temporaries destination q w i e) (u.temporary destination w i k)

  abbrev Kept : W × Bool × Text × Text → Type 0
  Kept x = P x.0

  appended_as-Kept : (hash : Text) (x : W × Option Text) → Fine x → Kept (appended_as fs hash x)
  appended_as-Kept hash (w, none) k = k
  appended_as-Kept hash (w, some final_hash) k = k

  uploaded-Kept :
      Temporaries
      → (kind : UploadKind) (aborted : Bool) (destination staging : FilePath) (mode : TransferMode)
      → Below root destination
      → (x : W × Bool) → P x.0
      → Kept (uploaded fs kind aborted destination staging mode x)
  uploaded-Kept temporaries append false destination staging mode i (w, true) k =
      if_rule Kept (is_binary mode && is_empty (hashed fs (is_binary mode) staging w)) _ _ k (
        appended_as-Kept (hashed fs (is_binary mode) staging w)
          (append_atomically fs destination staging (is_binary mode) w)
          (append_atomically-keeps temporaries destination staging (is_binary mode) i w k))
  uploaded-Kept temporaries append true destination staging mode i (w, true) k = k
  uploaded-Kept temporaries store aborted destination staging mode i (w, true) k = k
  uploaded-Kept temporaries unique aborted destination staging mode i (w, true) k = k
  uploaded-Kept temporaries append aborted destination staging mode i (w, false) k = k
  uploaded-Kept temporaries store aborted destination staging mode i (w, false) k = k
  uploaded-Kept temporaries unique aborted destination staging mode i (w, false) k = k

  remove_staging-keeps :
      (o : Option FilePath)
      → ((q : FilePath) → o ≡ some q → Scratch fs root P q)
      → (w : W) → P w
      → P (remove_staging fs o w)
  remove_staging-keeps none c w k = k
  remove_staging-keeps (some q) c w k = (c q refl).removed w k

  remove_failed-keeps :
      (b : Bool) (destination : FilePath)
      → Below root destination
      → (w : W) → P w
      → P (remove_failed fs b destination w)
  remove_failed-keeps true destination i w k = u.remove destination w i k
  remove_failed-keeps false destination i w k = k

  received-keeps :
      (b : Bool) (receive : W → W × Bool)
      → ((w : W) → P w → P (receive w).0)
      → (w : W) → P w
      → P (received fs b receive w).0
  received-keeps true receive h w k = h w k
  received-keeps false receive h w k = k

  -- The worker of an upload to a path strictly below the root, with a staging file, if there is one, that
  -- is a temporary file: whatever the transport answers, it takes away no property of the files that
  -- neither operations at or below the root, nor the removal of a path strictly below it, nor work on
  -- temporary files, nor `receiveFile` to its path take away.
  pub upload_work-keeps :
      Temporaries
      → (io : UploadIo fs) (destination : FilePath) (staging : Option FilePath)
        (mode : TransferMode) (kind : UploadKind) (filename : Text)
      → Below root destination
      → ((q : FilePath) → staging ≡ some q → Scratch fs root P q)
      → ((w : W) → P w → P (io.receive_file (receive_path fs destination staging) w).0)
      → (w : W) → P w
      → P (upload_work fs io destination staging mode kind filename w).0
  unfolding upload_work
  upload_work-keeps temporaries io destination staging mode kind filename i scratch receives w k =
      let path = receive_path fs destination staging in
      let x = received fs (io.ready && not io.aborted) (io.receive_file path) w in
      let done = uploaded fs kind io.aborted_after destination path mode x in
      remove_failed-keeps (not done.1 && is_unique kind) destination i
        (remove_staging fs staging done.0)
        (remove_staging-keeps staging scratch done.0 (
          uploaded-Kept temporaries kind io.aborted_after destination path mode i x
            (received-keeps (io.ready && not io.aborted) (io.receive_file path) receives w k)))
