-- ===== src/View.antt =====
-- view.h, in a debug build. A view is an address, which is 0 for null, and a size; a failed check has no result. The
-- elements it shows are those of a memory, in which each has one address.
pub mod Parts
mod Tests
use rtc_base.Common.{
  ℕ, ◌+◌, ◌-◌, min, Bool, not, ◌&&◌, Option, none, some, ◌==◌, if◌then◌else◌, ltb,
}

pub record View : Type 0 where
  pub address : ℕ
  pub size : ℕ

-- The constructor from a pointer and a length
pub view : ℕ → ℕ → Option View
view address size =
    if (if size == 0 then 0 else address) == address
      && (if address == 0 then size == 0 else not (size == 0))
    then some (record { address = address; size = size })
    else none

pub empty : View → Bool
empty v = v.size == 0

module _ {ℓ} {A : Type ℓ} where
  pub subscript : (ℕ → A) → View → ℕ → Option A
  subscript memory v idx =
      if ltb idx v.size && not (v.address == 0) then some (memory (v.address + idx)) else none

-- `subview` with an offset and a size, and with an offset
pub subview : ℕ → ℕ → View → Option View
subview offset size v =
    if ltb offset v.size then view (v.address + offset) (min size (v.size - offset)) else view 0 0

pub subview_from : ℕ → View → Option View
subview_from offset v = subview offset v.size v
