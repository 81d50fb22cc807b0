-- ===== src/Tests/Workers.antt =====
-- A run of the worker of an APPE.
use socket_programming.Base.{◌≡◌, refl, ap, true, false, List, [], ◌∷◌, some}
use mathlib.Core.Path.{subst}
use mathlib.Core.Option.{some-injective}
use socket_programming.Text.{codes}
use socket_programming.FileSystem.{FilePath, no_elements}
use socket_programming.FileSystem.Resolver.{Inside}
use socket_programming.FileSystem.Guarded.{Below}
use socket_programming.FileSystem.Directory.{path_eq}
use socket_programming.Control.ClientSession.{binary, append}
use socket_programming.Control.Workers.{UploadIo, upload_work}
use socket_programming.Control.Workers.Kept.{Scratch, Temporaries, upload_work-keeps}
use socket_programming.Tests.ControlData.{
  log, home, parent, TouchedInside, log-Untouched, named-Inside,
}

-- A path below the root is one at which the worker may do anything.
below-Scratch : (p : FilePath) → Inside home p → Scratch log home TouchedInside p
below-Scratch p i = record {
  truncated = λ w k. (i, k);
  copied = λ q w k. (i, k);
  closed_ = λ w k. k;
  removed = λ w k. (i, k);
  moved_to = λ q w j k. (i, (j, k));
}

log-Temporaries : Temporaries log home TouchedInside log-Untouched
log-Temporaries p q w i e = below-Scratch q (named-Inside (no_elements (parent p)) p q w i e)

abbrev file : FilePath
file = codes "srv" ∷ codes "f" ∷ []

abbrev part : FilePath
part = codes "srv" ∷ codes "t" ∷ []

abbrev sends : UploadIo log
sends = record {
  ready = true;
  aborted = false;
  aborted_after = false;
  receive_file = λ p w. (p ∷ w, true);
}

part-Scratch : (q : FilePath) → some part ≡ some q → Scratch log home TouchedInside q
part-Scratch q e =
    below-Scratch q (subst (Inside home) (some-injective part q e) (codes "t" ∷ [], refl))

part-received : (w : List FilePath) → TouchedInside w → TouchedInside (part ∷ w)
part-received w k = ((codes "t" ∷ [], refl), k)

file_not_home : ¬ (file ≡ home)
file_not_home e = cc (ap (λ (p : FilePath). path_eq p home) e)

file-Below : Below home file
file-Below = ((codes "f" ∷ [], refl), file_not_home)

upload_work-keeps_example :
    TouchedInside (upload_work log sends file (some part) binary append [] (file ∷ [])).0
upload_work-keeps_example =
    upload_work-keeps log home TouchedInside log-Untouched log-Temporaries sends file (some part)
      binary append [] file-Below part-Scratch part-received (file ∷ [])
      ((codes "f" ∷ [], refl), tt)
