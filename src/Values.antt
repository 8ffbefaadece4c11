-- ===== src/Values.antt =====
-- Python values of type `Any` that the program passes through: payloads, outputs, metadata. The
-- program only asks whether a value is a `dict` and looks keys up in it; any other value is `other`
-- with a text that stands for it, and the empty text is Python's `None`.
use shyam.Base.{String, [], ◌∷◌}
use shyam.Base.Dict.{Dict}

mutual
  pub data Value : Type 0 where
    other : String → Value
    dict : Fields → Value

  pub data Fields : Type 0 where
    end : Fields
    field : String → Value → Fields → Fields

-- The entries of a `dict` value.
unfoldable pub entries : Fields → Dict Value
entries end = []
entries (field k v fs) = (k, v) ∷ entries fs

-- A `dict` value from its entries.
unfoldable pub of_entries : Dict Value → Fields
of_entries [] = end
of_entries ((k, v) ∷ d) = field k v (of_entries d)
