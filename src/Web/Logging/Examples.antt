-- ===== src/Web/Logging/Examples.antt =====
-- An answer in three writes.
use goddd.Web.Logging.Written.{write_all_lem, concat}
use goddd.Common.Int.{pos_part, leb_ℤ, pos}
use goddd.Common.Text.{codes, Bytes}
use goddd.Web.Logging.{pos, new_buffer_writer, Bytes, write_all}
use goddd.Common.{take, if◌then◌else◌, [], ◌≡◌, List, ◌∷◌, refl}

abbrev writes : List Bytes
writes = codes "ab" ∷ codes "cd" ∷ codes "ef" ∷ []

write_all_lem_example :
    ((write_all writes (new_buffer_writer (pos 3))).sent ≡ concat writes)
    × ((write_all writes (new_buffer_writer (pos 3))).body ≡ (
        if leb_ℤ (pos 3) (pos 0) then concat writes else take (pos_part (pos 3)) (concat writes)))
write_all_lem_example = write_all_lem writes (pos 3)

three_bytes : (write_all writes (new_buffer_writer (pos 3))).body ≡ codes "abc"
unfolding write_all new_buffer_writer
three_bytes = refl
