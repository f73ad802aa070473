-- ===== src/Log/Tests.antt =====
-- Runs of the log's clock.
use wslyh.Log.Names.{LogPath, init_log_path, log_path, log_path-init, path_text}
use wslyh.Log.Shmtool.{main_args, main_args-usage, usage}
use wslyh.Base.{
  Bytes, Option, [], ap, arith, codes, digits_onto, false, none, ok, pos, refl, some, true, ℕ, ◌%◌,
  ◌/◌, ◌∷◌, ◌≡◌,
}
use wslyh.Log.{Tm, get_cur_time}
use wslyh.Log.Cached.{get_cur_time-holding, holding, stamp}

-- a local time on one day
abbrev at_minute : ℕ → ℕ → Tm
at_minute minutes seconds = record {
  tm_sec = seconds;
  tm_min = minutes % 60;
  tm_hour = minutes / 60 % 24;
  tm_mday = 1;
  tm_mon = 0;
  tm_year = 125;
}

abbrev one_day : ℕ → Tm
one_day t = at_minute (t / 60) (t % 60)

get_cur_time-holding_example :
    get_cur_time one_day 3725 4567 (holding (one_day 3721) 3721)
    ≡ (holding (one_day 3725) 3725, 3725, 4567 / 1000)
get_cur_time-holding_example =
    get_cur_time-holding one_day (λ s t e. ap (λ m. at_minute m (s % 60)) e) 3721 3725 4567
      (omega arith, omega arith, omega arith, omega arith, omega arith, omega arith)
      (omega arith, omega arith, omega arith, omega arith, omega arith, omega arith)

stamp_runs : stamp (one_day 3725) ≡ codes "2025-01-01 01:02:05"
unfolding digits_onto
stamp_runs = refl

-- the path itself, for a path that is not empty
abbrev found_path : Option Bytes → Option Bytes
found_path none = none
found_path (some []) = none
found_path (some (c ∷ path)) = some (c ∷ path)

main_args-usage_example :
    main_args found_path (codes "-d" ∷ codes "-f" ∷ codes "/bin/a" ∷ [])
    ≡ usage found_path (codes "-d" ∷ codes "-f" ∷ codes "/bin/a" ∷ [])
main_args-usage_example =
    main_args-usage found_path refl (codes "-d" ∷ codes "-f" ∷ codes "/bin/a" ∷ [])

abbrev unnamed : LogPath
unnamed = record { log_dir = []; prog_name = []; env = false; level = pos 0 }

log_path-init_example :
    log_path (init_log_path true (codes "/a") (codes "w") (pos 4) unnamed) 2025 1 31 77 2
    ≡ ok (path_text (codes "/a") (codes "w") 2025 1 31 77 2)
log_path-init_example =
    log_path-init (codes "/a") (codes "w") 2025 1 31 77 2 true (pos 4) unnamed
      ((λ e. absurd (omega (arith, e))), ((λ e. absurd (omega (arith, e))), tt))
      ((λ e. absurd (omega (arith, e))), tt)
