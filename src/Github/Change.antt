-- ===== src/Github/Change.antt =====
-- `ChangedFile` of src/config/schema/review.ts and `sizeClassOf` of src/github/git.ts. A path is
-- the list of its UTF-16 units.
use previewer.Prelude.{ℕ, leb, if◌then◌else◌}
use previewer.Core.Text.{Text}
use previewer.Config.Repo.{SizeClass}

pub data ChangeStatus : Type 0 where
  added modified removed renamed : ChangeStatus

pub record ChangedFile : Type 0 where
  pub path : Text
  pub status : ChangeStatus
  pub additions : ℕ
  pub deletions : ℕ
  pub size_class : SizeClass

-- `sizeClassOf`
unfoldable pub size_class_of : ℕ → SizeClass
size_class_of changed =
    if leb changed 5
    then SizeClass.tiny
    else if leb changed 50
    then SizeClass.small
    else if leb changed 250
    then SizeClass.medium
    else if leb changed 1000
    then SizeClass.large
    else SizeClass.huge
