-- ===== src/Core/Field/Reading.antt =====
-- What one read or one write does to its cursor.
use isobmff_rs.Common.{ℕ, ◌≡◌, ◌≤◌, ◌<◌, List, ◌++◌, length}
use isobmff_rs.Common.{split_at_checked-append, split_at_checked_short, drop, le→leb, refl}
use isobmff_rs.Common.Words.{saturating_add}
use isobmff_rs.Common.Result.{ok, err}
use isobmff_rs.Core.Error.{error, truncated_buffer}
use isobmff_rs.Core.Field.{FieldWriter, read_slice, write_slice, claimed}

-- A read that the payload covers takes the bytes off the front.
pub read_slice-append :
    (n payload_len : ℕ) (bytes tail : List ℕ)
    → length bytes ≡ n
    → read_slice (record { rest = bytes ++ tail; payload_len = payload_len }) n
      ≡ ok (bytes, record { rest = tail; payload_len = payload_len })
unfolding read_slice
read_slice-append n payload_len bytes tail e = rw (split_at_checked-append n bytes tail e) refl

-- A write that the buffer holds puts the bytes in front of the rest of it.
pub write_slice_fits :
    (w : FieldWriter) (bytes : List ℕ)
    → length bytes ≤ length w.rest
    → write_slice w bytes
      ≡ ok (record w { written = w.written ++ bytes; rest = drop (length bytes) w.rest })
unfolding write_slice
write_slice_fits w bytes h = rw (le→leb (length bytes) (length w.rest) h) refl

pub write_slice_short :
    (w : FieldWriter) (bytes : List ℕ)
    → length w.rest < length bytes
    → write_slice w bytes
      ≡ err (error (truncated_buffer (saturating_add (claimed w) (length bytes)) w.buffer_len))
unfolding write_slice
write_slice_short w bytes h = rw (split_at_checked_short (length bytes) w.rest h) refl
