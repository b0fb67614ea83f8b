-- ===== src/Args/Defs.antt =====
-- wrk.c: `parse_args`; script.c: `script_parse_url`. What `getopt_long` returns, option by option,
-- and the arguments that it leaves, are arguments; so is the URL parser of another library.
use wrkx.Prelude.{
  ℕ, Bool, true, false, Option, none, some, List, [], ◌∷◌, ◌++◌, length, ltb, ◌==◌, ◌&&◌, ◌||◌, not,
  if◌then◌else◌, mul64, ◌>>=◌,
}
use wrkx.Units.Defs.{scan_metric, scan_time}
use wrkx.Args.Affinity.{scan_affinity}

-- the cases of the `switch`: t, a, c, d, s, H, L, B, U, T, R, v, and all others
pub data Flag : Type 0 where
  threads affinity connections duration script header latency batch_latency u_latency timeout rate
        version other :
      Flag

-- `config` as the command line fills it in, with the headers
pub record Settings : Type 0 where
  pub threads : ℕ
  pub affinity : List (Option ℕ)
  pub connections : ℕ
  pub duration : ℕ
  pub timeout : ℕ
  pub rate : ℕ
  pub latency : Bool
  pub u_latency : Bool
  pub record_all_responses : Bool
  pub script : Option (List ℕ)
  pub headers : List (List ℕ)

abbrev pub defaults : Settings
defaults = record {
  threads = 2;
  affinity = [];
  connections = 10;
  duration = 10;
  timeout = 2000;
  rate = 0;
  latency = false;
  u_latency = false;
  record_all_responses = true;
  script = none;
  headers = [];
}

-- one round of the `while` loop; `none` is the result -1
unfoldable pub parse_flag : Flag → List ℕ → Settings → Option Settings
parse_flag threads optarg s = scan_metric optarg >>= λ n. some (record s { threads = n })
parse_flag affinity optarg s = scan_affinity optarg >>= λ a. some (record s { affinity = a })
parse_flag connections optarg s = scan_metric optarg >>= λ n. some (record s { connections = n })
parse_flag duration optarg s = scan_time optarg >>= λ n. some (record s { duration = n })
parse_flag script optarg s = some (record s { script = some optarg })
parse_flag header optarg s = some (record s { headers = s.headers ++ optarg ∷ [] })
parse_flag latency optarg s = some (record s { latency = true })
parse_flag batch_latency optarg s = some (record s { record_all_responses = false })
parse_flag u_latency optarg s = some (record s { latency = true; u_latency = true })
parse_flag timeout optarg s = scan_time optarg >>= λ n. some (record s { timeout = mul64 n 1000 })
parse_flag rate optarg s = scan_metric optarg >>= λ n. some (record s { rate = n })
parse_flag version optarg s = some s
parse_flag other optarg s = none

unfoldable pub parse_flags : List (Flag × List ℕ) → Settings → Option Settings
unfolding parse_flag
parse_flags [] s = some s
parse_flags ((flag, optarg) ∷ more) s = parse_flag flag optarg s >>= λ s'. parse_flags more s'

-- what the URL parser says of the parts that are asked for
pub record Parts : Type 0 where
  pub has_schema : Bool
  pub has_host : Bool

unfoldable pub script_parse_url : (List ℕ → Option Parts) → List ℕ → Option Parts
script_parse_url parse url =
    parse url >>= λ parts. if parts.has_schema && parts.has_host then some parts else none

-- the tests that follow the one of the URL
unfoldable pub refused : Settings → Bool
refused s =
    (s.connections == 0)
    || (ltb s.connections s.threads)
    || (s.rate == 0)
    || (not (length s.affinity == 0) && not (s.threads == length s.affinity))

-- from `optind == argc` on, with the arguments that are no options
unfoldable pub check_settings :
    (List ℕ → Option Parts) → List (List ℕ) → Settings → Option (Settings × List ℕ × Parts)
unfolding script_parse_url refused
check_settings parse [] s = none
check_settings parse (url ∷ args) s =
    if (s.threads == 0) || (s.duration == 0)
    then none
    else (script_parse_url parse url >>= λ parts. if refused s then none else some (s, url, parts))

unfoldable pub parse_args :
    (List ℕ → Option Parts)
    → List (Flag × List ℕ)
    → List (List ℕ)
    → Option (Settings × List ℕ × Parts)
unfolding parse_flags check_settings
parse_args parse flags args = parse_flags flags defaults >>= λ s. check_settings parse args s
