-- ===== src/Script/Samples.antt =====
-- An interpreter made of a list of entries, for the tests of script.c's model: it runs no Lua, each
-- function returns the same text.
use wrkx.Prelude.{
  ℕ, ◌+◌, Bool, true, false, Option, none, some, List, [], ◌∷◌, ◌++◌, length, get_elem?, refl, ◌==◌,
  ◌&&◌, if◌then◌else◌, codes, equal_bytes,
}
use wrkx.Script.Fields.{UrlField, UrlParts, schema, host, port, path}
use wrkx.Script.Headers.{Header, pair, plain}
use wrkx.Lua.Api.{
  Lua, LuaState, Value, nil, boolean, number, string, table, closure, userdata, Content,
}

abbrev equal : Value ℕ → Value ℕ → Bool
equal nil nil = true
equal (number m) (number n) = m == n
equal (string s) (string t) = equal_bytes s t
equal (table m) (table n) = m == n
equal _ _ = false

-- a table, a key and its value
abbrev pub Slot : Type 0
Slot = Value ℕ × Value ℕ × Value ℕ

pub record World : Type 0 where
  pub slots : List Slot
  pub tables : ℕ
  pub contents : List Content

abbrev find : Value ℕ → Value ℕ → List Slot → Value ℕ
find t k [] = nil
find t k ((u, j, v) ∷ slots) =
    let rest = find t k slots in if equal t u && equal k j then v else rest

-- the entries of a table
abbrev entries_of : Value ℕ → List Slot → List (Value ℕ × Value ℕ)
entries_of t [] = []
entries_of t ((u, k, v) ∷ slots) =
    let rest = entries_of t slots in if equal t u then (k, v) ∷ rest else rest

abbrev first : List (Value ℕ × Value ℕ) → Option (Value ℕ × Value ℕ)
first [] = none
first (e ∷ es) = some e

abbrev behind : Value ℕ → List (Value ℕ × Value ℕ) → Option (Value ℕ × Value ℕ)
behind key [] = none
behind key ((k, v) ∷ es) = let rest = behind key es in if equal key k then first es else rest

abbrev next_of : Value ℕ → List (Value ℕ × Value ℕ) → Option (Value ℕ × Value ℕ)
next_of nil es = first es
next_of key es = behind key es

abbrev assigned : World → Value ℕ → Value ℕ → Value ℕ → Option World
assigned w (table t) k v = some (record w { slots = (table t, k, v) ∷ w.slots })
assigned w t k v = none

abbrev content_of : World → Value ℕ → Option Content
content_of w (userdata u) = get_elem? w.contents u
content_of w v = none

abbrev answer : World → Value ℕ → Option (List (Value ℕ) × World)
answer w (closure r) = some (string (codes "GET /\n\n") ∷ [], w)
answer w v = none

-- The globals are table 0. A script file defines `done` and returns `true`.
abbrev pub listing : Lua
listing = record {
  N = ℕ;
  of_int = λ n. n;
  to_int = λ n. n;
  parse_number = λ b. none;
  print_number = λ n. codes "a number";
  W = World;
  get_global = λ w name. some (find (table 0) (string name) w.slots, w);
  set_global = λ w name v. assigned w (table 0) (string name) v;
  get = λ w t k. some (find t k w.slots, w);
  set = assigned;
  raw_set = λ w t k v. record w { slots = (t, k, v) ∷ w.slots };
  new_table = λ w. (table w.tables, record w { tables = w.tables + 1 });
  new_userdata =
      λ w c. (userdata (length w.contents), record w { contents = w.contents ++ c ∷ [] });
  objlen = λ w t. length (entries_of t w.slots);
  next = λ w t k. next_of k (entries_of t w.slots);
  new_metatable = λ w name lib. (string name, w);
  metatable = λ w name. string name;
  set_metatable = λ w v m. w;
  check = λ w v name. content_of w v;
  run_file = λ w file. (
    false,
    boolean true ∷ [],
    record w { slots = (table 0, string (codes "done"), closure 1) ∷ w.slots },
  );
  call = λ w f args. answer w f;
}

-- `wrk` with its headers, its functions and one address
abbrev pub prelude : World
prelude = record {
  slots =
      (table 0, string (codes "wrk"), table 1)
      ∷ (table 1, string (codes "headers"), table 2)
      ∷ (table 1, string (codes "request"), closure 1)
      ∷ (table 1, string (codes "resolve"), closure 2)
      ∷ (table 1, string (codes "setup"), closure 3)
      ∷ (table 1, string (codes "init"), closure 4)
      ∷ (table 1, string (codes "addrs"), table 3)
      ∷ (table 3, number 1, boolean true)
      ∷ [];
  tables = 4;
  contents = [];
}

abbrev pub new_state : LuaState listing
new_state = record { stack = []; world = prelude }

abbrev pub state_or : LuaState listing → Option (LuaState listing) → LuaState listing
state_or s none = s
state_or s (some s') = s'

-- "http://h/p", with neither port nor query
abbrev pub url : List ℕ
url = codes "http://h/p"

abbrev has_part : UrlField → Bool
has_part port = false
has_part _ = true

abbrev part_off : UrlField → ℕ
part_off schema = 0
part_off host = 7
part_off port = 0
part_off path = 8

abbrev part_len : UrlField → ℕ
part_len schema = 4
part_len host = 1
part_len port = 0
part_len path = 2

abbrev pub parts : UrlParts
parts = record { has = has_part; off = part_off; len = part_len }

abbrev pub headers : List Header
headers = pair (codes "A") (codes "1") (refl, tt) ∷ plain (codes "B") (refl, tt) ∷ []
