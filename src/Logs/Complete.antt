-- ===== src/Logs/Complete.antt =====
-- What a configuration is completed to.
use goddd.Common.Text.{codes, Bytes}
use goddd.Common.Int.{pos, ltb_ℤ, ℤ}
use goddd.Logs.{
  rotate_writer, Config, new_rotate_writer, setup_slog, Sampler, FileConfig, ℤ, Bytes,
  ensure_sampler, text_or, positive_or, ensure_file,
}
use goddd.Common.{refl, arith, ◌≡◌, true}

positive_or-positive_or :
    (d n : ℤ) → ltb_ℤ (pos 0) d ≡ true → positive_or d (positive_or d n) ≡ positive_or d n
unfolding positive_or
positive_or-positive_or d n h = ground (arith, h)

text_or-text_or : (d s : Bytes) → text_or d (text_or d s) ≡ text_or d s
unfolding text_or
text_or-text_or d s = ground arith

-- A configuration that was completed stays as it is when it is completed again, as `SetupSlog` does to the
-- default one.
pub ensure-ensure :
    (c : FileConfig) (s : Sampler)
    → (ensure_file (ensure_file c) ≡ ensure_file c)
      × (ensure_sampler (ensure_sampler s) ≡ ensure_sampler s)
unfolding ensure_file ensure_sampler
ensure-ensure c s = (
  (λ i. record c {
    dir = text_or-text_or (codes "./logs") c.dir i;
    name = text_or-text_or (codes "app.log") c.name i;
    max_age = positive_or-positive_or (pos 7) c.max_age refl i;
    rotation_time = positive_or-positive_or (pos 43_200_000_000_000) c.rotation_time refl i;
    max_size = positive_or-positive_or (pos 50) c.max_size refl i;
  }),
  (λ i. record {
    tick_sec = positive_or-positive_or (pos 1) s.tick_sec refl i;
    first = positive_or-positive_or (pos 5) s.first refl i;
    thereafter = positive_or-positive_or (pos 5) s.thereafter refl i;
  }),
)

-- `SetupSlog` sets up the log in the same way with a configuration that was completed before as
-- with the configuration itself; only the file for crashes differs, if the directory was empty.
pub setup_slog-ensure_file :
    (lower : Bytes → Bytes) (join : Bytes → Bytes → Bytes) (c : Config)
    → setup_slog lower join
        (record c { sampler = ensure_sampler c.sampler; file_config = ensure_file c.file_config })
      ≡ record (setup_slog lower join c) {
        crash_file = join (text_or (codes "./logs") c.file_config.dir) (codes "crash.log");
      }
unfolding setup_slog new_rotate_writer
setup_slog-ensure_file lower join c =
    let again = ensure-ensure c.file_config c.sampler in
    λ i. record (setup_slog lower join c) {
      sampler = again.1 i;
      writer = rotate_writer join (again.0 i);
      crash_file = join (text_or (codes "./logs") c.file_config.dir) (codes "crash.log");
    }
