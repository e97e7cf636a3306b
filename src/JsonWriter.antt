-- ===== src/JsonWriter.antt =====
-- JSON documents that the firmware writes, as the list of their members in the order of assignment, and
-- what is used of ArduinoJson to write them, which is not part of the repository.
use multisensory_device.Base.{
  ℕ, ◌+◌, ◌<◌, ◌≡◌, refl, ◌++◌, Bool, true, false, ◌||◌, Option, none, some, List, [], arith, ltb,
  ◌==◌, if◌then◌else◌, length, All, All-append,
}
use multisensory_device.Base.Int.{ℤ}
use multisensory_device.Floats.{Floats}

-- `real` is a `float` and `wide` a `double`.
pub data Leaf (f : Floats) : Type 0 where
  number : ℕ → Leaf f
  integer : ℤ → Leaf f
  real : f.Float → Leaf f
  wide : f.Double → Leaf f
  text : List ℕ → Leaf f
  flag : Bool → Leaf f

pub data Value (f : Floats) : Type 0 where
  leaf : Leaf f → Value f
  object : List (List ℕ × Leaf f) → Value f

abbrev pub Document : Floats → Type 0
Document f = List (List ℕ × Value f)

-- measureJson, and the bytes that serializeJson writes to a buffer of the given size
pub record JsonWriter (f : Floats) : Type 0 where
  pub measure : Document f → ℕ
  pub serialize : Document f → ℕ → List ℕ

-- The members of a part of a document that depends on a condition.
abbrev pub only_if : {f : Floats} → Bool → Document f → Document f
only_if b members = if b then members else []

-- The end that all builders share: `none` is the result `false`, with an empty text in the output. The
-- output pointer is never null.
unfoldable pub serialize_to : {f : Floats} → JsonWriter f → Document f → ℕ → Option (List ℕ)
serialize_to w document output_size =
    let bytes = w.serialize document output_size in
    if output_size == 0 || ltb output_size (w.measure document + 1)
    then none
    else if length bytes == 0 || ltb output_size (length bytes + 1)
    then none
    else some bytes

pub serialize_to-fits :
    {f : Floats} (w : JsonWriter f) (document : Document f) (output_size : ℕ) (bytes : List ℕ)
    → serialize_to w document output_size ≡ some bytes
    → (0 < length bytes) × (length bytes < output_size)
unfolding serialize_to
serialize_to-fits w document output_size bytes h = (ground arith, ground arith)

-- JSON has no spelling for NaN and infinities: all numbers of a document are finite.
abbrev pub IsFiniteLeaf : {f : Floats} → Leaf f → Type 0
IsFiniteLeaf {f} (real x) = f.float.is_finite x ≡ true
IsFiniteLeaf {f} (wide x) = f.double.is_finite x ≡ true
IsFiniteLeaf _ = Unit {0}

abbrev pub IsFinite : {f : Floats} → Value f → Type 0
IsFinite (leaf x) = IsFiniteLeaf x
IsFinite (object members) = All (λ m. IsFiniteLeaf m.1) members

abbrev pub AllFinite : {f : Floats} → Document f → Type 0
AllFinite document = All (λ m. IsFinite m.1) document

pub append-AllFinite :
    {f : Floats} (xs ys : Document f) → AllFinite xs → AllFinite ys → AllFinite (xs ++ ys)
append-AllFinite xs ys h k = All-append (λ m. IsFinite m.1) xs ys h k

pub only_if-AllFinite :
    {f : Floats} (b : Bool) (members : Document f)
    → (b ≡ true → AllFinite members)
    → AllFinite (only_if b members)
only_if-AllFinite true members h = h refl
only_if-AllFinite false members h = tt
