-- ===== src/Tests/Transport.antt =====
-- The writing side of the transport over a socket that takes three bytes at a time.
use devicekit.Prelude.{ℕ, ◌≡◌, refl, true, false, some, [], ◌∷◌, length, min, arith}
use devicekit.Transport.{
  Round, Writer, wrote, push_bytes_to_socket, push_loop, fetch, fetch_from, advance,
}
use devicekit.Transport.Order.{IsHonest, Conserves, push_bytes_to_socket-Conserves}
use devicekit.Transport.Returns.{IsUninterrupted, HasReturned, push_bytes_to_socket-HasReturned}

abbrev pub rounds : ℕ → Round
rounds i = record { taken_at = 5; read_at = 6; write = λ slice. wrote (min 3 (length slice)) }

abbrev writer : Writer
writer = record {
  queue = (1 ∷ 2 ∷ 3 ∷ 4 ∷ []) ∷ [] ∷ (5 ∷ []) ∷ [];
  has_sender = true;
  pending_buf = some (7 ∷ 8 ∷ []);
  pending_offset = 1;
  pending_since = 0;
  sent = 7 ∷ [];
}

pub rounds-IsHonest : IsHonest rounds
rounds-IsHonest i n slice e = ground arith

rounds-IsUninterrupted : IsUninterrupted rounds
rounds-IsUninterrupted i slice e = cc

push_bytes_to_socket-Conserves_example :
    Conserves writer (push_bytes_to_socket rounds false 9 writer).0
push_bytes_to_socket-Conserves_example =
    push_bytes_to_socket-Conserves rounds rounds-IsHonest false 9 writer (omega arith)

push_bytes_to_socket-HasReturned_example :
    HasReturned (push_bytes_to_socket rounds false 65_536 writer)
push_bytes_to_socket-HasReturned_example =
    push_bytes_to_socket-HasReturned rounds rounds-IsUninterrupted false 65_536 writer (omega arith)

-- Both messages are written behind the rest of the pending one, four rounds in all.
all_sent : (push_bytes_to_socket rounds false 9 writer).0.sent ≡ 7 ∷ 8 ∷ 1 ∷ 2 ∷ 3 ∷ 4 ∷ 5 ∷ []
unfolding push_bytes_to_socket push_loop fetch fetch_from advance
all_sent = refl
