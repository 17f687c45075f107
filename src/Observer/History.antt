-- ===== src/Observer/History.antt =====
-- The conversation that the UI is shown: the pages of `pageMessages` put together, against the rows of
-- the log.
use xevos.Base.{
  ℕ, zero, suc, ◌≡◌, refl, ap, ◌∙◌, Option, none, some, List, [], ◌∷◌, ◌++◌, map, length, arith,
  Option-cases, inl, inr,
}
use xevos.Sql.{Sql}
use xevos.Sql.Order.{Ascending, keep-Ascending}
use xevos.Db.{Database, EventRow}
use xevos.Bus.Store.{event_seq}
use xevos.Web.Keys.{reverse}
use xevos.Web.Stream.{Message}
use xevos.Observer.Page.{page, follow}
use xevos.Observer.Queries.{is_conversation, message_from_row, conversation, page_messages}
use xevos.Observer.Paging.{unseen-none, length-reverse, follow-unseen}

pub map-append :
    {A B : Type 0} (f : A → B) (xs ys : List A) → map f (xs ++ ys) ≡ map f xs ++ map f ys
map-append f [] ys = refl
map-append f (x ∷ xs) ys = ap (λ t. f x ∷ t) (map-append f xs ys)

module _ ⦃sql : Sql⦄ where
  -- A client that loads the first page of messages and follows `nextCursor`, with at most `fuel` requests.
  unfoldable pub load_history : ℕ → Database → Option ℕ → ℕ → Option (List Message)
  load_history zero db before limit = none
  load_history (suc fuel) db before limit = elim (page_messages db before limit) [
    | none ↦ none
    | some p ↦ elim p.next_cursor [
      | none ↦ some p.items
      | some c ↦ elim (load_history fuel db (some c) limit) [
        | none ↦ none
        | some older ↦ some (p.items ++ older)
      ]
    ]
  ]

  abbrev mapped : Option (List EventRow) → Option (List Message)
  mapped none = none
  mapped (some rows) = some (map message_from_row rows)

  load_history-follow :
      (fuel : ℕ) (db : Database) (before : Option ℕ) (limit : ℕ)
      → load_history fuel db before limit
        ≡ mapped (follow event_seq fuel before limit (conversation db))
  unfolding load_history follow page_messages
  load_history-follow zero db before limit = refl
  load_history-follow (suc fuel) db before limit =
      elim (Option-cases (page event_seq before limit (conversation db))) [
        | inl e ↦ rw (e, load_history, follow) refl
        | inr (p, e) ↦ elim (Option-cases p.next_cursor) [
          | inl f ↦ ground (arith, e, f)
          | inr (c, f) ↦
              let rest = load_history-follow fuel db (some c) limit in
              elim (Option-cases (follow event_seq fuel (some c) limit (conversation db))) [
                | inl g ↦ ground (arith, e, f, g, rest)
                | inr (older, g) ↦
                    ground (arith, e, f, g, rest, map-append message_from_row p.items older)
              ]
        ]
      ]

  -- With a limit that is not 0 and a log whose sequence numbers ascend, a client that follows `nextCursor` from the newest page, for as many
  -- requests as there are messages of the principal and one more, gets every such message of the log
  -- exactly once, newest first, and then no further cursor.
  pub load_history_lem :
      (db : Database) (n : ℕ)
      → Ascending event_seq (sql.rows db.events)
      → load_history (suc (length (conversation db))) db none (suc n)
        ≡ some (map message_from_row (reverse (conversation db)))
  load_history_lem db n h =
      let rows = conversation db in
      let all = unseen-none event_seq rows in
      let seen =
        follow-unseen event_seq (suc (length rows)) none n rows
          (keep-Ascending event_seq is_conversation (sql.rows db.events) h)
          (omega (arith, ap length all, length-reverse rows)) in
      load_history-follow (suc (length rows)) db none (suc n) ∙ ap mapped (seen ∙ ap some all)
