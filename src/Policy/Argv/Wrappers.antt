-- ===== src/Policy/Argv/Wrappers.antt =====
-- policy.go, unwrap: a wrapper in front of a command leaves the command that is classified.
use ueg.Common.{◌≡◌, refl, Bool, true, false, List, [], ◌∷◌, Option, none, some, Text, ◌||◌, arith}
use ueg.Policy.{Host}
use ueg.Policy.Argv.{mem, wrappers, elevating, executable_base, owned_by, strip_wrappers}

module _ (h : Host) where
  -- Which arguments are left does not depend on whether a wrapper has elevated.
  pub strip_wrappers-effective :
      (w : Option Text) (e e' : Bool) (argv : List Text)
      → (strip_wrappers h w e argv).0 ≡ (strip_wrappers h w e' argv).0
  unfolding strip_wrappers
  strip_wrappers-effective w e e' [] = refl
  strip_wrappers-effective w e e' (a ∷ rest) = ground (
    arith,
    strip_wrappers-effective w e e' rest,
    strip_wrappers-effective (some (executable_base h a)) (e || mem (executable_base h a) elevating)
        (e' || mem (executable_base h a) elevating) rest,
  )

  -- A wrapper before an argument that is not its own.
  pub strip_wrapper :
      (e : Bool) (w a : Text) (rest : List Text)
      → (mem (executable_base h w) wrappers || mem (executable_base h w) elevating) ≡ true
      → owned_by (executable_base h w) a ≡ false
      → (strip_wrappers h none e (w ∷ a ∷ rest)).0 ≡ (strip_wrappers h none false (a ∷ rest)).0
  unfolding strip_wrappers
  strip_wrapper e w a rest wrap own = ground (
    arith,
    strip_wrappers-effective (some (executable_base h a))
        ((e || mem (executable_base h w) elevating) || mem (executable_base h a) elevating)
        (false || mem (executable_base h a) elevating) rest,
  )
