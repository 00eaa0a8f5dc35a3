-- ===== src/StackMap/Reader.antt =====
-- The readers of engine/bjvm/vm/stackmaptable.c.
use tracejvm.Prelude.{
  ℕ, ◌+◌, ◌*◌, Bool, true, false, List, [], ◌∷◌, Option, none, some, ◌==◌, if◌then◌else◌,
}
use tracejvm.StackMap.Types.{
  ValidationKind, top, integer, float, double, long, null, uninit_this, object, uninit,
  ValidationType, unexpected_end, invalid_verification_type, Result, ok, err, ◌>>=◌,
}

-- What is read, and the bytes behind it.
unfoldable pub read_u8 : List ℕ → Result (ℕ × List ℕ)
read_u8 [] = err unexpected_end
read_u8 (b ∷ bs) = ok (b, bs)

-- Big-endian.
unfoldable pub read_u16 : List ℕ → Result (ℕ × List ℕ)
read_u16 (hi ∷ lo ∷ bs) = ok (hi * 256 + lo, bs)
read_u16 _ = err unexpected_end

-- The constructors of the enumeration, in its order; `none` above `UNINIT`.
unfoldable pub validation_kind : ℕ → Option ValidationKind
validation_kind n =
    if n == 0
    then some top
    else if n == 1
    then some integer
    else if n == 2
    then some float
    else if n == 3
    then some double
    else if n == 4
    then some long
    else if n == 5
    then some null
    else if n == 6
    then some uninit_this
    else if n == 7
    then some object
    else if n == 8
    then some uninit
    else none

abbrev pub has_index : ValidationKind → Bool
has_index object = true
has_index uninit = true
has_index _ = false

abbrev pub bare : ValidationKind → ValidationType
bare kind = record { kind = kind; name = 0 }

-- The index that follows an object or an uninitialised value is skipped: its name is not read yet.
unfoldable pub read_named : ValidationKind → List ℕ → Result (ValidationType × List ℕ)
unfolding read_u16
read_named kind bs =
    if has_index kind then (read_u16 bs >>= λ r. ok (bare kind, r.1)) else ok (bare kind, bs)

abbrev pub named_or_invalid : Option ValidationKind → List ℕ → Result (ValidationType × List ℕ)
named_or_invalid none bs = err invalid_verification_type
named_or_invalid (some kind) bs = read_named kind bs

unfoldable pub read_verification_type : List ℕ → Result (ValidationType × List ℕ)
unfolding read_u8 validation_kind read_named
read_verification_type bs = read_u8 bs >>= λ r. named_or_invalid (validation_kind r.0) r.1
