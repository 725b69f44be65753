-- ===== src/EventLog/EventLaws.antt =====
-- Parsing and printing events.
use guest_components.Prelude.{
  ◌≡◌, false, true, some, ◌∷◌, ◌++◌, arith, Str, contains, split_once, append_assoc, ok, err,
  Option-cases, inl, inr,
}
use guest_components.Prelude.Split.{
  contains-append, contains-split_once, split_once-eq-some, split_once-append, split_once_exists,
  split_once_of_contains,
}
use guest_components.EventLog.Event.{content_contains_newline, Event, try_from, to_string, new}

-- What is parsed prints back as the text that was read, and its content has no newline.
pub to_string-try_from :
    (s : Str) (e : Event)
    → try_from s ≡ ok e
    → (to_string e ≡ s) × (contains b'\n' e.content ≡ false)
unfolding try_from to_string
to_string-try_from s e h = elim (Option-cases (split_once b' ' s)) [
  | inl q ↦ ground arith
  | inr ((domain, rest), q) ↦ elim (Option-cases (split_once b' ' rest)) [
    | inl q' ↦ ground arith
    | inr ((operation, content), q') ↦ ground (
      arith,
      split_once-eq-some b' ' s domain rest q,
      split_once-eq-some b' ' rest operation content q',
    )
  ]
]

-- An event whose domain and operation have no space is parsed back from its text, if its content
-- has no newline.
try_from-to_string :
    (e : Event)
    → contains b' ' e.domain ≡ false
    → contains b' ' e.operation ≡ false
    → contains b'\n' e.content ≡ false
    → try_from (to_string e) ≡ ok e
unfolding try_from to_string
try_from-to_string e d o c = ground (
  arith,
  split_once-append b' ' e.domain (e.operation ++ (b' ' ∷ e.content)) d,
  split_once-append b' ' e.operation e.content o,
)

to_string-split :
    (e : Event) (domain rest operation content : Str)
    → split_once b' ' (to_string e) ≡ some (domain, rest)
    → split_once b' ' rest ≡ some (operation, content)
    → to_string (record { domain = domain; operation = operation; content = content }) ≡ to_string e
unfolding to_string
to_string-split e domain rest operation content first second = ground (
  arith,
  split_once-eq-some b' ' (to_string e) domain rest first,
  split_once-eq-some b' ' rest operation content second,
)

content-no_newline :
    (e : Event) → contains b'\n' (to_string e) ≡ false → contains b'\n' e.content ≡ false
unfolding to_string contains
content-no_newline e h = ground (
  arith,
  contains-append b'\n' e.domain (b' ' ∷ (e.operation ++ (b' ' ∷ e.content))),
  contains-append b'\n' e.operation (b' ' ∷ e.content),
)

try_from_of_split :
    (e : Event) (s rest : Str)
    → split_once b' ' s ≡ some (e.domain, rest)
    → split_once b' ' rest ≡ some (e.operation, e.content)
    → contains b'\n' e.content ≡ false
    → try_from s ≡ ok e
unfolding try_from
try_from_of_split e s rest first second h = ground arith

-- Whatever its spaces, the text of an event with no newline parses, to an event of the same text.
pub try_from-to_string_total :
    (e : Event)
    → contains b'\n' (to_string e) ≡ false
    → (e' : Event) × (try_from (to_string e) ≡ ok e') × (to_string e' ≡ to_string e)
unfolding to_string
try_from-to_string_total e h =
    let (r, first) = split_once_exists b' ' e.domain (e.operation ++ (b' ' ∷ e.content)) in
    let more = contains-split_once b' ' e.domain e.operation e.content r.0 r.1 first in
    let (r', second) = split_once_of_contains b' ' r.1 more in
    let e' : Event = record { domain = r.0; operation = r'.0; content = r'.1 } in
    let same : to_string e' ≡ to_string e = to_string-split e r.0 r.1 r'.0 r'.1 first second in
    (
      e',
      try_from_of_split e' (to_string e) r.1 first second (content-no_newline e' (rw same h)),
      same,
    )

-- Only the content is checked for a newline: an event whose domain holds two spaces and a newline
-- behind them is made, and its text is not read back.
pub new-try_from_newline :
    (x y z operation content : Str)
    → contains b' ' x ≡ false
    → contains b' ' y ≡ false
    → contains b'\n' z ≡ true
    → contains b'\n' content ≡ false
    → (e : Event) × (new (x ++ (b' ' ∷ (y ++ (b' ' ∷ z)))) operation content ≡ ok e)
      × (try_from (to_string e) ≡ err content_contains_newline)
unfolding new try_from to_string
new-try_from_newline x y z operation content hx hy hz hc =
    let rest = operation ++ (b' ' ∷ content) in
    let tail = z ++ (b' ' ∷ rest) in
    (
      record { domain = x ++ (b' ' ∷ (y ++ (b' ' ∷ z))); operation = operation; content = content },
      rw hc,
      rw (append_assoc x (b' ' ∷ (y ++ (b' ' ∷ z))) (b' ' ∷ rest)) (
          rw (append_assoc y (b' ' ∷ z) (b' ' ∷ rest)) (
            rw (split_once-append b' ' x (y ++ (b' ' ∷ tail)) hx) (
              rw (split_once-append b' ' y tail hy)
                (rw (contains-append b'\n' z (b' ' ∷ rest)) (rw hz))))),
    )
