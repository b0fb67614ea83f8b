-- ===== src/Thread/Responses.antt =====
-- What holds of all the responses of a call of `socket_readable`, whatever their times (wrk.c).
use wrkx.Prelude.{◌≡◌, ◌∙◌, refl, List, [], ◌∷◌}
use wrkx.Thread.Completion.{Completing, ParserCall, on_callback, on_message_complete, Reading}
use wrkx.Thread.Induction.{Pace, CallsFrom, ReadingsFrom}

-- Something holds of all the responses that a parser completes, in its calls and in the rounds.
abbrev pub AllCalls : (Completing → Type 0) → List ParserCall → Type 0
AllCalls Ok [] = Unit {0}
AllCalls Ok (on_callback e ∷ es) = AllCalls Ok es
AllCalls Ok (on_message_complete m ∷ es) = Ok m × AllCalls Ok es

abbrev pub AllReadings : (Completing → Type 0) → List Reading → Type 0
AllReadings Ok [] = Unit {0}
AllReadings Ok (r ∷ rs) = AllCalls Ok r.calls × AllReadings Ok rs

AllCalls-mono :
    (Ok Ok' : Completing → Type 0) (es : List ParserCall)
    → ((m : Completing) → Ok m → Ok' m)
    → AllCalls Ok es
    → AllCalls Ok' es
AllCalls-mono Ok Ok' [] f h = h
AllCalls-mono Ok Ok' (on_callback e ∷ es) f h = AllCalls-mono Ok Ok' es f h
AllCalls-mono Ok Ok' (on_message_complete m ∷ es) f (h, k) = (f m h, AllCalls-mono Ok Ok' es f k)

pub AllReadings-mono :
    (Ok Ok' : Completing → Type 0) (rs : List Reading)
    → ((m : Completing) → Ok m → Ok' m)
    → AllReadings Ok rs
    → AllReadings Ok' rs
AllReadings-mono Ok Ok' [] f h = h
AllReadings-mono Ok Ok' (r ∷ rs) f (h, k) =
    (AllCalls-mono Ok Ok' r.calls f h, AllReadings-mono Ok Ok' rs f k)

-- a clock that stands
abbrev pub standing : (Completing → Type 0) → Pace
standing Ok = record {
  Ok = λ t m. Ok m;
  next = λ t m. t;
  Le = λ t t'. t ≡ t';
  Le-next = λ t m h. refl;
  Le-trans = λ t u v h k. h ∙ k;
}

AllCalls-CallsFrom :
    (Ok : Completing → Type 0) (es : List ParserCall)
    → AllCalls Ok es
    → CallsFrom (standing Ok) 0 es 0
AllCalls-CallsFrom Ok [] h = refl
AllCalls-CallsFrom Ok (on_callback e ∷ es) h = AllCalls-CallsFrom Ok es h
AllCalls-CallsFrom Ok (on_message_complete m ∷ es) (h, k) = (h, AllCalls-CallsFrom Ok es k)

pub AllReadings-ReadingsFrom :
    (Ok : Completing → Type 0) (rs : List Reading)
    → AllReadings Ok rs
    → ReadingsFrom (standing Ok) 0 rs 0
AllReadings-ReadingsFrom Ok [] h = refl
AllReadings-ReadingsFrom Ok (r ∷ rs) (h, k) =
    (0, AllCalls-CallsFrom Ok r.calls h, AllReadings-ReadingsFrom Ok rs k)
