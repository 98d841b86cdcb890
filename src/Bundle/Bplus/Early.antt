-- ===== src/Bundle/Bplus/Early.antt =====
-- The early returns of verifyBPlusBundle: none of them is the verdict VERIFIED.
use ueg.Common.{◌≡◌, ◌≢◌, refl, Bool, true, false, Result, ok, err, ◌>>=◌, refuse_if, map_err}
use ueg.Bundle.{BundleResult, Overall}
use ueg.Bundle.Bplus.{settle}

-- A part of the chain that goes on, or returns a result that is not VERIFIED.
pub data Refuses {X : Type 0} : Result BundleResult X → Type 0 where
  passes : (x : X) → Refuses (ok x)
  refuses : (e : BundleResult) → e.overall_trust ≢ Overall.verified → Refuses (err e)

pub map_err-Refuses :
    {E X : Type 0} (f : E → BundleResult) (m : Result E X)
    → ((e : E) → (f e).overall_trust ≢ Overall.verified)
    → Refuses (map_err f m)
map_err-Refuses f (ok x) h = passes x
map_err-Refuses f (err e) h = refuses (f e) (h e)

pub refuse_if-Refuses :
    (b : Bool) (e : BundleResult) → e.overall_trust ≢ Overall.verified → Refuses (refuse_if b e)
refuse_if-Refuses true e h = refuses e h
refuse_if-Refuses false e h = passes tt

pub >>=-Refuses :
    {X Y : Type 0} (m : Result BundleResult X) (k : X → Result BundleResult Y)
    → Refuses m
    → ((x : X) → Refuses (k x))
    → Refuses (m >>= k)
>>=-Refuses _ k (passes x) h = h x
>>=-Refuses _ k (refuses e p) h = refuses e p

pub map_result-Refuses :
    {X : Type 0} (f : BundleResult → BundleResult) (m : Result BundleResult X)
    → ((e : BundleResult) → (f e).overall_trust ≡ e.overall_trust)
    → Refuses m
    → Refuses (map_err f m)
map_result-Refuses f _ same (passes x) = passes x
map_result-Refuses f _ same (refuses e p) = refuses (f e) (λ h. p (cc (same e)))

abbrev pub IsVerdict : Result BundleResult BundleResult → Type 0
IsVerdict m = (settle m).overall_trust ≡ Overall.verified

-- Where the end is VERIFIED, each part went on.
pub >>=-IsVerdict :
    {X : Type 0} (m : Result BundleResult X) (k : X → Result BundleResult BundleResult)
    → Refuses m
    → IsVerdict (m >>= k)
    → (x : X) × (m ≡ ok x) × IsVerdict (k x)
>>=-IsVerdict _ k (passes x) h = (x, refl, h)
>>=-IsVerdict _ k (refuses e p) h = absurd (p h)

pub map_err-IsVerdict :
    {E X : Type 0} (f : E → BundleResult) (m : Result E X)
    (k : X → Result BundleResult BundleResult)
    → ((e : E) → (f e).overall_trust ≢ Overall.verified)
    → IsVerdict (map_err f m >>= k)
    → (x : X) × (m ≡ ok x) × IsVerdict (k x)
map_err-IsVerdict f (ok x) k p h = (x, refl, h)
map_err-IsVerdict f (err e) k p h = absurd (p e h)

pub refuse_if-IsVerdict :
    (b : Bool) (e : BundleResult) (k : Unit {0} → Result BundleResult BundleResult)
    → e.overall_trust ≢ Overall.verified
    → IsVerdict (refuse_if b e >>= k)
    → (b ≡ false) × IsVerdict (k tt)
refuse_if-IsVerdict true e k p h = absurd (p h)
refuse_if-IsVerdict false e k p h = (refl, h)

pub refuse_if-ok :
    {E Y : Type 0} (b : Bool) (e : E) (k : Unit {0} → Result E Y) {y : Y}
    → (refuse_if b e >>= k) ≡ ok y
    → (b ≡ false) × (k tt ≡ ok y)
refuse_if-ok true e k h = cc
refuse_if-ok false e k h = (refl, h)

pub map_err-ok :
    {E F X Y : Type 0} (f : E → F) (m : Result E X) (k : X → Result F Y) {y : Y}
    → (map_err f m >>= k) ≡ ok y
    → (x : X) × (m ≡ ok x) × (k x ≡ ok y)
map_err-ok f (ok x) k h = (x, refl, h)
map_err-ok f (err e) k h = cc
