-- ===== src/RefCount.antt =====
-- ref_counter.h, ref_counted_object.h and scoped_refptr.h: objects that count the references to them, in the
-- child Store, and here the pointers of a program, as numbered variables, over one heap. A variable that is not
-- constructed, or was destroyed, holds null. `none` is an access to a deleted object.
pub mod Store
pub mod Accounts
mod Tests
use rtc_base.Common.{
  ℕ, ◌≡◌, Bool, true, false, List, Option, none, some, ◌==◌, if◌then◌else◌, get_or, set,
}
use rtc_base.RefCount.Store.{Heap, add_ref, release, RefCountReleaseStatus}

pub record Program : Type 0 where
  pub heap : Heap
  pub ptrs : List (Option ℕ)

infixl 5 ◌>>=◌
abbrev pub ◌>>=◌ : {A B : Type 0} → Option A → (A → Option B) → Option B
none >>= f = none
some a >>= f = f a

-- `if (p) p->AddRef();`
add_ref_if : Option ℕ → Heap → Option Heap
add_ref_if none h = some h
add_ref_if (some o) h = add_ref o h

-- `if (p) p->Release();`
release_if : Option ℕ → Heap → Option Heap
release_if none h = some h
release_if (some o) h = do (h', status) ← release o h; some h'

pub get : ℕ → Program → Option ℕ
get i s = get_or s.ptrs i none

put : ℕ → Option ℕ → Program → Program
put i p s = record s { ptrs = set s.ptrs i p }

-- `scoped_refptr(T* p)`
pub construct : ℕ → Option ℕ → Program → Option Program
unfolding add_ref_if put
construct i p s = do h ← add_ref_if p s.heap; some (put i p (record s { heap = h }))

-- `scoped_refptr(const scoped_refptr& r)`
pub construct_copy : ℕ → ℕ → Program → Option Program
unfolding construct get
construct_copy i j s = construct i (get j s) s

-- The pointer that `release()` returns, and the program with null in its place.
pub release_ptr : ℕ → Program → Option ℕ × Program
unfolding get put
release_ptr i s = (get i s, put i none s)

-- `scoped_refptr(scoped_refptr&& r)`
pub construct_move : ℕ → ℕ → Program → Program
unfolding release_ptr put
construct_move i j s = let (p, t) = release_ptr j s in put i p t

-- `~scoped_refptr()`
pub destroy : ℕ → Program → Option Program
unfolding release_if get put
destroy i s = do h ← release_if (get i s) s.heap; some (put i none (record s { heap = h }))

-- `operator=(T* p)`
pub assign : ℕ → Option ℕ → Program → Option Program
unfolding add_ref_if release_if get put
assign i p s = do
  h ← add_ref_if p s.heap
  h' ← release_if (get i s) h
  some (put i p (record s { heap = h' }))

-- `operator=(const scoped_refptr& r)`
pub assign_copy : ℕ → ℕ → Program → Option Program
unfolding assign get
assign_copy i j s = assign i (get j s) s

-- `swap(T** pp)`, with the pointer that `*pp` holds afterwards.
swap_raw : ℕ → Option ℕ → Program → Option ℕ × Program
unfolding get put
swap_raw i p s = (get i s, put i p s)

-- `operator=(scoped_refptr&& r)`: a temporary takes the pointer of `r`, is swapped with this one and destroyed.
pub assign_move : ℕ → ℕ → Program → Option Program
unfolding release_ptr swap_raw release_if
assign_move i j s = do
  let (temporary, t) = release_ptr j s
  let (old, u) = swap_raw i temporary t
  h ← release_if old u.heap
  some (record u { heap = h })

-- `swap(scoped_refptr& r)`
pub swap : ℕ → ℕ → Program → Program
unfolding swap_raw get put
swap i j s = let (p, t) = swap_raw i (get j s) s in put j p t

-- The operations on pointers.
pub data Op : Type 0 where
  constructs : ℕ → Option ℕ → Op
  copies moves : ℕ → ℕ → Op
  destroys releases : ℕ → Op
  assigns : ℕ → Option ℕ → Op
  copy_assigns move_assigns swaps : ℕ → ℕ → Op

pub perform : Op → Program → Option Program
unfolding release_ptr
perform (constructs i p) s = construct i p s
perform (copies i j) s = construct_copy i j s
perform (moves i j) s = some (construct_move i j s)
perform (destroys i) s = destroy i s
perform (releases i) s = some (release_ptr i s).1
perform (assigns i p) s = assign i p s
perform (copy_assigns i j) s = assign_copy i j s
perform (move_assigns i j) s = assign_move i j s
perform (swaps i j) s = some (swap i j s)
