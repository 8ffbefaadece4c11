-- ===== src/Trust/Store.antt =====
-- src/shyam/trust/store.py: the file that holds the records. Its state says what `load` finds, and
-- `Write` whether the next write succeeds. `holds records` is the text that `save` writes of the
-- records; Json has that text and what is read of it.
use shyam.Base.{[], Option}
use shyam.Base.Dict.{Dict}
use shyam.Trust.Models.{TrustRecord}

pub data TrustError : Type 0 where
  store_error corruption_error : TrustError

pub data Disk : Type 0 where
  absent : Disk  -- no file, or an empty one
  unreadable : Disk  -- `read_text` raises `OSError`
  corrupt : Disk  -- not the JSON of a dict of records
  holds : Dict TrustRecord → Disk

pub data Loaded : Type 0 where
  ok : Dict TrustRecord → Loaded
  failed : TrustError → Loaded

unfoldable pub load : Disk → Loaded
load absent = ok []
load unreadable = failed store_error
load corrupt = failed corruption_error
load (holds records) = ok records

pub data Write : Type 0 where
  succeeds fails : Write

-- The file after `save`, and the error that it raises. The file is replaced in one step.
unfoldable pub save : Write → Dict TrustRecord → Disk → Disk × Option TrustError
save succeeds records disk = (holds records, Option.none)
save fails records disk = (disk, Option.some store_error)
