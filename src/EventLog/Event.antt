-- ===== src/EventLog/Event.antt =====
-- AAEL events and their text form: `Content`, `Event` of eventlog/mod.rs.
use guest_components.Prelude.{
  ◌∷◌, ◌++◌, Str, contains, split_once, Result, ok, ◌>>=◌, bail_if, ok_or, ◌>>◌,
}

pub data EventError : Type 0 where
  content_contains_newline no_space no_second_space : EventError

pub record Event : Type 0 where
  pub domain : Str
  pub operation : Str
  pub content : Str

-- `Content::try_from`
unfoldable pub content_try_from : Str → Result EventError Str
content_try_from value = do bail_if (contains b'\n' value) content_contains_newline; ok value

-- `Event::new`
unfoldable pub new : Str → Str → Str → Result EventError Event
unfolding content_try_from
new domain operation content = do
  c ← content_try_from content
  ok (record { domain = domain; operation = operation; content = c })

-- `Event::try_from(&str)`: the text up to the first space, up to the second, and the rest
unfoldable pub try_from : Str → Result EventError Event
unfolding content_try_from
try_from s = do
  (domain, after_first) ← ok_or (split_once b' ' s) no_space
  (operation, content) ← ok_or (split_once b' ' after_first) no_second_space
  c ← content_try_from content
  ok (record { domain = domain; operation = operation; content = c })

-- `Display for Event`
unfoldable pub to_string : Event → Str
to_string e = e.domain ++ (b' ' ∷ (e.operation ++ (b' ' ∷ e.content)))
