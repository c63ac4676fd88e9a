-- ===== src/Household/Conversations.antt =====
-- conversations/models.py, conversations/repository.py and conversations/service.py. A message of
-- the stored history is JSON, which no code here looks into.
use nidaro.Base.{
  ℕ, suc, String, Bool, Option, none, some, List, [], ◌∷◌, ◌++◌, ◌==◌, Result, ok, err, Exec,
}
use nidaro.Base.{value_error}
use nidaro.Base.Table.{find, alter}

pub record Conversation (Message : Type 0) : Type 0 where
  pub id : ℕ
  pub household_id : ℕ
  pub title : Option String
  pub message_history : List Message

pub record State (Message : Type 0) : Type 0 where
  pub conversations : List (Conversation Message)
  pub next_id : ℕ

module _ {Message : Type 0} where
  abbrev pub conversation_is : ℕ → Conversation Message → Bool
  conversation_is i r = r.id == i

  unfoldable pub load : ℕ → State Message → Option (Conversation Message)
  load conversation_id s = find (conversation_is conversation_id) s.conversations

  unfoldable pub create : ℕ → Option String → State Message → Conversation Message × State Message
  create household title s =
      let row : Conversation Message = record {
        id = s.next_id;
        household_id = household;
        title = title;
        message_history = [];
      } in
      (row, record s { conversations = s.conversations ++ row ∷ []; next_id = suc s.next_id })

  abbrev pub with_history : List Message → Conversation Message → Conversation Message
  with_history history r = record r { message_history = history }

  abbrev pub saved :
      ℕ
      → List Message
      → State Message
      → Option (Conversation Message)
      → Result (Unit {0}) × State Message
  saved conversation_id history s none = (err value_error, s)
  saved conversation_id history s (some r) = (
    ok tt,
    record s {
      conversations =
          alter (conversation_is conversation_id) (with_history history) s.conversations;
    },
  )

  unfoldable pub save_history : ℕ → List Message → Exec (State Message) (Unit {0})
  save_history conversation_id history s =
      saved conversation_id history s (find (conversation_is conversation_id) s.conversations)
