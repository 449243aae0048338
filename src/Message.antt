-- ===== src/Message.antt =====
-- thread_message.h: the message of a queue. A pointer is a number, and a null pointer `none`; the
-- place that a message was posted from (location.h) is only passed on, so it is any number.
use rtc_base.Common.{ℕ, Bool, true, false, ◌&&◌, ◌||◌, Option, none, some, List, ◌∷◌, ◌==◌}

-- `static_cast<uint32_t>(-1)` and `static_cast<uint32_t>(-2)`
abbrev pub mqid_any : ℕ
mqid_any = 0xffff_ffff

abbrev pub mqid_dispose : ℕ
mqid_dispose = 0xffff_fffe

pub record Message : Type 0 where
  pub posted_from : ℕ
  pub phandler : Option ℕ
  pub message_id : ℕ
  pub pdata : Option ℕ

-- the comparison of two pointers
abbrev pub same_pointer : Option ℕ → Option ℕ → Bool
same_pointer none none = true
same_pointer none (some b) = false
same_pointer (some a) none = false
same_pointer (some a) (some b) = a == b

-- `Message::Match`
unfoldable pub match : Option ℕ → ℕ → Message → Bool
match handler id m =
    (same_pointer handler none || same_pointer handler m.phandler)
    && (id == mqid_any || id == m.message_id)

-- `delete pdata`: what has been freed, the latest first. A null pointer frees nothing.
abbrev pub free : Option ℕ → List ℕ → List ℕ
free none deleted = deleted
free (some p) deleted = p ∷ deleted
