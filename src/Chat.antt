-- ===== src/Chat.antt =====
-- pkg/wschat/hub.go: who is in which room; its modules have the rest of the hub. A client is the number
-- that stands for its pointer. The hub's lock makes each operation one step.
pub mod Sets
pub mod Membership
pub mod Rate
pub mod Frame
pub mod Content
pub mod Escaping
pub mod Wire
pub mod Server
pub mod History
pub mod Replay
pub mod Rules
pub mod Sound
pub mod Guarding
pub mod Routing
pub mod Safety
pub mod Endings
pub mod Refusals
pub mod Slow
pub mod Steps
pub mod Binding
pub mod Entering
pub mod Speaking
pub mod Comments
pub mod Dispatch
pub mod Serve
mod Tests
mod ServerTests
use apipro.Base.{
  ℕ, zero, suc, ◌+◌, ◌-◌, Bool, true, false, List, [], ◌∷◌, ◌++◌, Text, Option, none, some, ltb,
  ◌==◌, text_eq, if◌then◌else◌, length,
}
use Sets.{has, add, delete}

-- `rooms` of `Hub`, and `rooms` of each `Client`.
pub record Hub : Type 0 where
  pub rooms : Text → Option (List ℕ)
  pub rooms_of : ℕ → List Text

abbrev pub new_hub : Hub
new_hub = record { rooms = λ r. none; rooms_of = λ c. [] }

abbrev pub put_room : (Text → Option (List ℕ)) → Text → Option (List ℕ) → Text → Option (List ℕ)
put_room rooms room o r = if text_eq room r then o else rooms r

abbrev pub put_client : (ℕ → List Text) → ℕ → List Text → ℕ → List Text
put_client rooms_of c rs d = if c == d then rs else rooms_of d

-- The clients of a room: Go's nil map is read as empty.
abbrev pub clients : Option (List ℕ) → List ℕ
clients none = []
clients (some cs) = cs

unfoldable pub join_room : Text → ℕ → Hub → Hub
join_room room c h = record {
  rooms = put_room h.rooms room (some (add ◌==◌ c (clients (h.rooms room))));
  rooms_of = put_client h.rooms_of c (add text_eq room (h.rooms_of c));
}

-- An empty room is deleted.
abbrev pub kept : List ℕ → Option (List ℕ)
kept [] = none
kept (c ∷ cs) = some (c ∷ cs)

abbrev pub without : ℕ → Option (List ℕ) → Option (List ℕ)
without c none = none
without c (some cs) = kept (delete ◌==◌ c cs)

abbrev pub drop_from : Text → ℕ → (Text → Option (List ℕ)) → Text → Option (List ℕ)
drop_from room c rooms = put_room rooms room (without c (rooms room))

unfoldable pub leave_room : Text → ℕ → Hub → Hub
leave_room room c h = record {
  rooms = drop_from room c h.rooms;
  rooms_of = put_client h.rooms_of c (delete text_eq room (h.rooms_of c));
}

-- The loop of `unregisterAll`.
unfoldable pub drop_from_all : List Text → ℕ → (Text → Option (List ℕ)) → Text → Option (List ℕ)
drop_from_all [] c rooms = rooms
drop_from_all (room ∷ rs) c rooms = drop_from_all rs c (drop_from room c rooms)

unfoldable pub unregister_all : ℕ → Hub → Hub
unregister_all c h = record {
  rooms = drop_from_all (h.rooms_of c) c h.rooms;
  rooms_of = put_client h.rooms_of c [];
}

unfoldable pub room_size : Hub → Text → ℕ
room_size h room = length (clients (h.rooms room))

-- The clients that `broadcast` sends to.
abbrev pub in_room : Hub → Text → ℕ → Bool
in_room h room c = has ◌==◌ c (clients (h.rooms room))

abbrev pub minute : ℕ
minute = 60000000000

-- The times that the loop of `allowSend` leaves.
unfoldable pub since : ℕ → List ℕ → List ℕ
since cut [] = []
since cut (t ∷ ts) = let rest = since cut ts in if ltb t cut then rest else t ∷ ts

-- The client's `sendTimes` and the answer.
unfoldable pub allow_send : ℕ → ℕ → List ℕ → List ℕ × Bool
allow_send rate_per_min now times =
    let recent = since (now - minute) times in
    if ltb (length recent) rate_per_min then (recent ++ now ∷ [], true) else (recent, false)
