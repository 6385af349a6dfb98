-- ===== src/Stream/Validation.antt =====
-- The checks of `StreamMessage::new` (s5_core/src/stream/types/mod.rs).
use s5_rs.Base.{ℕ, ◌≡◌, refl, Option, none, some, Bytes, ok, arith}
use s5_rs.Stream.{StreamMessage, StreamKey, MessageType, IsValid, new, InlineFits, oversized}

pub oversized_of_fits : (k : StreamKey) (d : Option Bytes) → InlineFits k d → oversized k d ≡ none
oversized_of_fits k none h = refl
oversized_of_fits k (some d) h = ground arith

pub fits_of_oversized : (k : StreamKey) (d : Option Bytes) → oversized k d ≡ none → InlineFits k d
fits_of_oversized k none h = tt
fits_of_oversized k (some d) h = λ e. ground arith

-- StreamMessage::new accepts the fields of every valid message and returns that message.
pub new_of_valid :
    (m : StreamMessage)
    → IsValid m
    → new m.type_id m.key m.revision m.hash m.signature m.inline_data ≡ ok m
unfolding new
new_of_valid m v = ground (arith, oversized_of_fits m.key m.inline_data v.fits)

-- What StreamMessage::new returns has the given fields and is valid.
pub new-IsValid :
    (t : MessageType) (k : StreamKey) (r : ℕ) (h s : Bytes) (d : Option Bytes) {m : StreamMessage}
    → new t k r h s d ≡ ok m
    → IsValid m
      × (m
          ≡ record { type_id = t; key = k; revision = r; hash = h; signature = s; inline_data = d })
unfolding new
new-IsValid t k r h s d e =
    (record { signed = ground arith; fits = fits_of_oversized _ _ (ground arith) }, ground arith)
