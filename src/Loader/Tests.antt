-- ===== src/Loader/Tests.antt =====
-- The theorems on the loader, applied to the file of a program.
use vadm.Base.{◌≡◌, ◌≤◌, ◌<◌, refl, arith, true, some, [], ◌∷◌}
use mathlib.Core.Path.{subst}
use vadm.Execute.Pages.{map_pages, map_pages-IsMapping}
use vadm.Loader.State.{continues, Image}
use vadm.Loader.Holds.{Holds}
use vadm.Loader.Invariant.{IsValid}
use vadm.Loader.RoundTrip.{load_program-PlacesAll}
use vadm.Loader.Result.{load_program-IsValid}
use vadm.Loader.{load_program}
use vadm.Loader.Sample.{
  types, types-AreBlockTypes, blocks, image, file-Holding, mapped, loaded, blocks-PlacesAll,
}

load_program-PlacesAll_example :
    load_program types map_pages (λ p. 0) 4097 true (some image) true (λ q. 0)
    ≡ continues (record loaded { pos = image.size })
load_program-PlacesAll_example =
    load_program-PlacesAll types types-AreBlockTypes map_pages (λ p. 0) 0 (λ p. refl) image 4097
      (omega arith) (2 ∷ []) blocks (λ q. 0) mapped loaded refl (omega arith) (omega arith, tt) refl
      blocks-PlacesAll file-Holding

load_program-IsValid_example :
    Holds
      (IsValid (λ q. 0))
      (load_program types map_pages (λ p. 0) 4097 true (some image) true (λ q. 0))
load_program-IsValid_example =
    load_program-IsValid types map_pages (λ p. 0) map_pages-IsMapping 4097 true true (some image)
      (λ q. 0)
      (λ i e.
        let same : image ≡ i = cc e in
        subst (λ (t : Image). (t.mapped < 4097) × (t.size ≤ t.mapped)) same
          (omega arith, omega arith))
