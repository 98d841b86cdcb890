-- ===== src/Identity/Storage/Transaction/NewPair.antt =====
-- transaction.go, completePendingOrFinalPair and publishPendingPair: the files of the new pair, from
-- which the publication ends alike.
use ueg.Common.{◌≡◌, Bool, true, ◌||◌, none, ℤ, is_some, int_Eq, text_Eq, if◌then◌else◌, arith}
use ueg.Identity.Storage.{EpochFiles, HomeFiles}
use ueg.Identity.Storage.Transaction.{complete_pair, publish_private_file, publish_public_file}

-- The same files.
abbrev pub Same : HomeFiles → HomeFiles → Type 0
Same x y = (x.authority ≡ y.authority) × ((j : ℤ) → x.epochs j ≡ y.epochs j)

-- The files of the new epoch after its pair is published, and after the staged names are cleared.
abbrev pub filed : EpochFiles → EpochFiles
filed e = publish_public_file (publish_private_file e)

abbrev pub cleared : EpochFiles → EpochFiles
cleared e = record (filed e) { pending_private = none; pending_public = none }

abbrev pub clean : Bool → EpochFiles → EpochFiles
clean b e = if b then cleared e else e

abbrev pub strip : Bool → EpochFiles → EpochFiles
strip b e = if b then record e { private = none } else e

-- Files from which the publication ends like it ends from `e`.
abbrev pub Fits : EpochFiles → EpochFiles → Type 0
Fits e f =
    (complete_pair f ≡ true)
    × ((filed f).private ≡ (filed e).private)
    × ((filed f).public ≡ (filed e).public)

pub Fits-first : (e : EpochFiles) → complete_pair e ≡ true → Fits e (publish_private_file e)
unfolding complete_pair
Fits-first e h = (ground arith, ground arith, ground arith)

pub Fits-filed : (e : EpochFiles) → complete_pair e ≡ true → Fits e (filed e)
unfolding complete_pair
Fits-filed e h = (ground arith, ground arith, ground arith)

pub Fits-half :
    (e : EpochFiles) → complete_pair e ≡ true → Fits e (record (filed e) { pending_private = none })
unfolding complete_pair
Fits-half e h = (ground arith, ground arith, ground arith)

pub Fits-cleared : (e : EpochFiles) → complete_pair e ≡ true → Fits e (cleared e)
unfolding complete_pair
Fits-cleared e h = (ground arith, ground arith, ground arith)

pub complete-there :
    (e : EpochFiles)
    → complete_pair e ≡ true
    → ((is_some e.private || is_some e.pending_private) ≡ true)
      × ((is_some e.public || is_some e.pending_public) ≡ true)
unfolding complete_pair
complete-there e h = (ground arith, ground arith)
