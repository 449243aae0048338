-- ===== src/View/Tests.antt =====
-- Parts of a view of three elements at the address 10.
use rtc_base.Common.{ℕ, ◌+◌, ◌≡◌, refl, false, none, some, if◌then◌else◌, ltb, arith}
use rtc_base.View.{View, view, subscript, subview, subview_from, empty}
use rtc_base.View.Parts.{IsView, subview_lem}

abbrev three : View
three = record { address = 10; size = 3 }

three-IsView : IsView three
three-IsView = record { nowhere = λ e. omega arith; somewhere = λ l. omega arith }

subview_lem_example :
    (part : View) × (subview 1 5 three ≡ some part)
    × IsView part
    × ((idx : ℕ)
        → subscript (λ a. a) part idx
          ≡ (if ltb idx 5 then subscript (λ a. a) three (1 + idx) else none))
subview_lem_example = subview_lem (λ a. a) 1 5 three three-IsView (omega arith)

new_view : view 10 3 ≡ some three
unfolding view
new_view = refl

rest_of_three : subview_from 2 three ≡ some (record { address = 12; size = 1 })
unfolding subview_from subview view
rest_of_three = refl

three_not_empty : empty three ≡ false
unfolding empty
three_not_empty = refl
