-- ===== src/Runtime/Array.antt =====
-- runtime/Array.h: array descriptors, views of contiguous buffers and the place of an element.
pub mod Place
use embx.Prelude.{
  ℕ, ◌+◌, ◌-◌, ◌*◌, ◌/◌, ◌%◌, String, Bool, true, false, not, ◌&&◌, List, [], ◌∷◌, ltb, leb, ◌==◌,
  if◌then◌else◌,
}
use embx.Prelude.Result.{Result, ok, err, ◌>>=◌, ◌>>◌, refuse_if}
use embx.Runtime.Host.{word, size_max}

pub data ArrayElementKind : Type 0 where
  unknown primitive bytes string named : ArrayElementKind

pub record ArrayDescriptor : Type 0 where
  pub element_kind : ArrayElementKind
  pub element_type_id : ℕ
  pub element_size : ℕ
  pub element_count : ℕ
  pub dimensions : List ℕ

-- The buffer's bytes are not read here: whether its pointer is null, and its size.
pub record ArrayBuffer : Type 0 where
  pub is_null : Bool
  pub size : ℕ

pub record ArrayView : Type 0 where
  pub descriptor : ArrayDescriptor
  pub buffer : ArrayBuffer

-- The loop of `checkedElementCount` and of `ArrayDescriptor::valid`.
unfoldable pub count_loop : ℕ → List ℕ → Result ℕ
count_loop count [] = ok count
count_loop count (extent ∷ ds) =
    refuse_if (not (extent == 0) && ltb (size_max / extent) count) "array element count overflow"
    >> count_loop (count * extent % word) ds

unfoldable pub checked_element_count : List ℕ → Result ℕ
checked_element_count ds = count_loop 1 ds

unfoldable pub descriptor_valid : ArrayDescriptor → Result (Unit {0})
descriptor_valid d =
    refuse_if (d.element_size == 0) "array element size must be non-zero"
    >> (count_loop 1 d.dimensions >>= λ count.
        refuse_if (not (count == d.element_count)) "array element count does not match dimensions")

unfoldable pub view_valid : ArrayView → Result (Unit {0})
view_valid v =
    descriptor_valid v.descriptor
    >> (if v.descriptor.element_count == 0
        then refuse_if (not (v.buffer.size == 0)) "empty array must have an empty buffer"
        else refuse_if (ltb size_max v.descriptor.element_size)
            "array element size exceeds host size_t"
          >> refuse_if (ltb (size_max / v.descriptor.element_size) v.descriptor.element_count)
              "array buffer size exceeds host size_t"
          >> refuse_if v.buffer.is_null "non-empty array requires a data pointer"
          >> refuse_if
              (not (v.buffer.size == v.descriptor.element_count * v.descriptor.element_size % word))
              "array buffer size does not match descriptor")

-- One turn of the loop of `elementAt`, on the index so far and the stride.
unfoldable pub index_step : ℕ → ℕ → ℕ × ℕ → Result (ℕ × ℕ)
index_step index extent (linear, stride) =
    refuse_if (leb extent index) "array index is out of bounds"
    >> refuse_if (not (index == 0) && ltb (size_max / index) stride) "array index overflow"
    >> refuse_if (ltb (size_max - index * stride) linear) "array index overflow"
    >> refuse_if (not (extent == 0) && ltb (size_max / extent) stride) "array index overflow"
    >> ok (linear + index * stride, stride * extent)

-- The loop goes from the last dimension to the first, so the later ones are done before this one.
unfoldable pub index_loop : List ℕ → List ℕ → Result (ℕ × ℕ)
index_loop (index ∷ is) (extent ∷ ds) = index_loop is ds >>= index_step index extent
index_loop _ _ = ok (0, 1)

abbrev pub rank : List ℕ → ℕ
rank [] = 0
rank (_ ∷ l) = rank l + 1

-- The offset of the element from the buffer's start.
unfoldable pub element_at : List ℕ → ArrayView → Result ℕ
element_at indices v =
    view_valid v
    >> refuse_if (not (rank indices == rank v.descriptor.dimensions))
        "array index rank does not match dimensions"
    >> (index_loop indices v.descriptor.dimensions >>= λ at.
        refuse_if (leb v.descriptor.element_count at.0) "array index exceeds element count"
        >> refuse_if
            (not (v.descriptor.element_size == 0)
              && ltb (size_max / v.descriptor.element_size) at.0)
            "array element offset overflow"
        >> refuse_if (ltb size_max (at.0 * v.descriptor.element_size))
            "array element offset exceeds host size_t"
        >> ok (at.0 * v.descriptor.element_size))
