-- ===== src/Args/Tests.antt =====
-- A command line: `wrk -t3 -a0,0x1,2 -R2k URL`.
use wrkx.Prelude.{ℕ, ◌≡◌, ◌↔◌, ◌⊎◌, map, replicate, length, none, refl, true, some, List, [], ◌∷◌}
use wrkx.Units.Defs.{
  skip_space, scan_metric, scan_units, sscanf, scan_signed, scan_number, scan_digits, scan_unit,
  scan_word, unit_scale, find_unit, strncasecmp,
}
use wrkx.Args.Affinity.{
  tokens, scan_base, scan_any_base, strtol_signed, strtol, scan_tokens, scan_affinity,
}
use wrkx.Args.Defs.{
  Flag, threads, affinity, rate, Settings, defaults, parse_flag, parse_flags, Parts,
  script_parse_url, refused, check_settings, parse_args,
}
use wrkx.Args.Usable.{Usable, GoodUrl, parse_args_iff}
use wrkx.Start.Affinity.{thread_cpus, thread_cpus-assigned}

abbrev flags : List (Flag × List ℕ)
flags =
    (threads, 51 ∷ [])
    ∷ (affinity, 48 ∷ 44 ∷ 48 ∷ 120 ∷ 49 ∷ 44 ∷ 50 ∷ [])
    ∷ (rate, 50 ∷ 107 ∷ [])
    ∷ []

abbrev settings : Settings
settings = record defaults { threads = 3; affinity = some 0 ∷ some 1 ∷ some 2 ∷ []; rate = 2_000 }

abbrev parts : Parts
parts = record { has_schema = true; has_host = true }

abbrev url : List ℕ
url = 104 ∷ 58 ∷ []

accepted : parse_args (λ u. some parts) flags (url ∷ []) ≡ some (settings, url, parts)
unfolding parse_args parse_flags parse_flag check_settings script_parse_url refused scan_metric
    scan_units sscanf scan_signed scan_number scan_digits scan_unit scan_word skip_space unit_scale
    find_unit strncasecmp scan_affinity scan_tokens strtol strtol_signed scan_any_base scan_base
    tokens
accepted = refl

parse_args_iff_example :
    (parse_args (λ u. some parts) flags (url ∷ []) ≡ some (settings, url, parts)) ↔ (
      (parse_flags flags defaults ≡ some settings)
      × Usable settings
      × GoodUrl (λ u. some parts) url parts
      × ((rest : List (List ℕ)) × (url ∷ [] ≡ url ∷ rest)))
parse_args_iff_example = parse_args_iff (λ u. some parts) flags (url ∷ []) settings url parts

thread_cpus-assigned_example :
    ((settings.affinity ≡ []) × (thread_cpus settings ≡ some (replicate 3 none)))
    ⊎ ((thread_cpus settings ≡ some (map some settings.affinity)) × (length settings.affinity ≡ 3))
thread_cpus-assigned_example =
    thread_cpus-assigned (λ u. some parts) flags (url ∷ []) settings url parts accepted
