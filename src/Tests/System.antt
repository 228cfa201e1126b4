-- ===== src/Tests/System.antt =====
-- The peer as a whole: tests, and instances of its theorems.
use projet_reseau.Prelude.{
  ℕ, ◌≡◌, refl, List, [], ◌∷◌, ◌++◌, Option, none, some, false, arith, length, take, drop,
  replicate, length-replicate, All, if◌then◌else◌, is_some, leb,
}
use projet_reseau.Bytes.{le_value}
use projet_reseau.Neighbor.{Addr, Neighbor, Ident}
use projet_reseau.Abr.{get_ident, issymmetrical}
use projet_reseau.Genlist.{get, remove_elem}
use projet_reseau.Genlist.Counted.{with_front}
use projet_reseau.Flood.{FloodEntry, get_symmetrical, nb_data}
use projet_reseau.Peer.{Env, Peer, index_of, probe}
use projet_reseau.Peer.Valid.{IsValid}
use projet_reseau.Receive.{handle_message_h, read_tlvs, hello, handle_data, data_text}
use projet_reseau.Receive.Valid.{handle_message_h-IsValid}
use projet_reseau.Receive.Frames.{read_tlvs-fuel}
use projet_reseau.Receive.Hello.{
  accepted, greeting, updated, hello-get_ident, short_hello-issymmetrical,
}
use projet_reseau.Receive.Data.{knows, flood_of, handle_data_new}
use projet_reseau.Receive.Repeat.{Received, receive_all, Answered, handle_data_twice}
use projet_reseau.Main.{State, Event, init_peer, message_of, run}
use projet_reseau.Main.Invariant.{IsEvent, run-IsValid, init_peer-IsValid}

abbrev sender : Addr
sender = record { ip = replicate 16 1; port = 1212 }

abbrev from_sender : Neighbor
from_sender = record { addr = sender; msg = none }

abbrev env_at : ℕ → Env
env_at t = record { now = t; rand = λ n. n; junk = [] }

-- Memory of a frame that has not been written to.
zero_stack : List ℕ
zero_stack = replicate 4096 0

zero_stack-size : length zero_stack ≡ 4096
unfolding zero_stack
zero_stack-size = length-replicate {A = ℕ} 4096 0

fresh : Peer
fresh = init_peer (λ n. n)

fresh-IsValid : IsValid fresh
unfolding fresh
fresh-IsValid = init_peer-IsValid (λ n. n)

-- A short hello, and a text from the user.
abbrev events : List Event
events =
    record {
      env = env_at 200;
      stack = zero_stack;
      datagram = some (sender, 93 ∷ 2 ∷ 0 ∷ 10 ∷ 2 ∷ 8 ∷ replicate 8 5);
      typed = none;
    }
    ∷ record {
      env = env_at 201;
      stack = zero_stack;
      datagram = none;
      typed = some (0x68 ∷ 0x69 ∷ 0x0a ∷ []);
    }
    ∷ []

abbrev start : State
start = record { peer = fresh; nexthello = 0; inbox = [] }

events-All : All IsEvent events
events-All = (
  record { stack_size = zero_stack-size; datagram_size = (refl, omega arith) },
  (record { stack_size = zero_stack-size; datagram_size = tt }, tt),
)

run-IsValid_example : IsValid (run events start).peer
run-IsValid_example = run-IsValid events start events-All fresh-IsValid

abbrev hello_bytes : List ℕ
hello_bytes = 93 ∷ 2 ∷ 0 ∷ 10 ∷ 2 ∷ 8 ∷ replicate 8 5

handle_message_h-IsValid_example :
    IsValid (handle_message_h (env_at 200) zero_stack (message_of hello_bytes) 14 from_sender fresh)
handle_message_h-IsValid_example =
    handle_message_h-IsValid (env_at 200) zero_stack (message_of hello_bytes) 14 from_sender fresh
      (record { sixteen = refl; no_buffer = refl }) zero_stack-size (omega arith) fresh-IsValid

read_tlvs-fuel_example :
    read_tlvs 6 (env_at 5) (1 ∷ 3 ∷ 0 ∷ 0 ∷ 0 ∷ []) 5 zero_stack from_sender fresh
    ≡ read_tlvs 60 (env_at 5) (1 ∷ 3 ∷ 0 ∷ 0 ∷ 0 ∷ []) 5 zero_stack from_sender fresh
read_tlvs-fuel_example =
    read_tlvs-fuel 6 60 (env_at 5) (1 ∷ 3 ∷ 0 ∷ 0 ∷ 0 ∷ []) 5 zero_stack from_sender fresh
      (omega arith) (omega arith)

abbrev hello_tlv : List ℕ
hello_tlv = replicate 8 5 ++ replicate 8 6

hello-get_ident_example :
    get_ident (hello (env_at 200) hello_tlv 8 from_sender fresh).neighbors sender ≡ (
      if accepted hello_tlv 8 fresh
      then updated fresh.neighbors sender (greeting (env_at 200) hello_tlv 8) sender
      else get_ident fresh.neighbors sender)
hello-get_ident_example =
    hello-get_ident (env_at 200) hello_tlv 8 from_sender fresh sender refl fresh-IsValid

short_hello-issymmetrical_example :
    (val : Ident) × (get_ident (hello (env_at 200) hello_tlv 8 from_sender fresh).neighbors sender
      ≡ some val)
    × (val.last_hello ≡ 200)
    × (issymmetrical 200 val ≡ false)
short_hello-issymmetrical_example =
    short_hello-issymmetrical (env_at 200) hello_tlv 8 from_sender fresh refl fresh-IsValid
      (omega arith) (omega arith)

-- The identity of `fresh` is made of the bytes 0 to 7.
abbrev to_fresh : List ℕ
to_fresh = replicate 8 5 ++ 0 ∷ 1 ∷ 2 ∷ 3 ∷ 4 ∷ 5 ∷ 6 ∷ 7 ∷ []

to_fresh_id : le_value (take 8 (drop 8 to_fresh)) ≡ fresh.id
unfolding le_value fresh init_peer
to_fresh_id = refl

-- The content of a data TLV: identity, nonce, type 0 and two letters.
abbrev text : List ℕ
text = replicate 8 5 ++ 1 ∷ 2 ∷ 3 ∷ 4 ∷ 0 ∷ 0x68 ∷ 0x69 ∷ []

unknown : knows fresh (index_of text) ≡ false
unfolding fresh init_peer get
unknown = refl

abbrev first_copy : Received
first_copy = record { env = env_at 200; tlv = text; len = 15; sender = from_sender }

-- Another TLV between the two.
abbrev other_text : Received
other_text = record {
  env = env_at 210;
  tlv = replicate 8 5 ++ 1 ∷ 2 ∷ 3 ∷ 5 ∷ 0 ∷ 0x68 ∷ 0x6f ∷ [];
  len = 15;
  sender = from_sender;
}

abbrev second_copy : Received
second_copy = record {
  env = env_at 230;
  tlv = text;
  len = 15;
  sender = record { addr = record { ip = replicate 16 2; port = 80 }; msg = none };
}

handle_data_twice_example :
    let later =
      receive_all (other_text ∷ []) (handle_data (env_at 200) text 15 from_sender fresh) in
    let after =
      handle_data
        (env_at 230)
        text
        15
        (record { addr = record { ip = replicate 16 2; port = 80 }; msg = none })
        later in
    (after.shown ≡ later.shown)
    × Answered
        (index_of text)
        (record { ip = replicate 16 2; port = 80 })
        later.dataf.entries
        after.dataf.entries
handle_data_twice_example =
    handle_data_twice first_copy (other_text ∷ []) second_copy fresh
      ((refl, tt), omega arith, omega arith) (((refl, tt), omega arith, omega arith), tt)
      (omega arith) refl fresh-IsValid unknown

handle_data_new_example :
    let after = handle_data (env_at 200) text 15 from_sender fresh in
    let targets = (remove_elem (get_symmetrical 200 fresh.neighbors) (probe sender)).0 in
    ((out : Option FloodEntry) × (with_front out after.dataf.entries
        ≡ fresh.dataf.entries ++ (flood_of text 15 targets ∷ []))
      × (is_some out ≡ leb nb_data (length fresh.dataf.entries)))
    × (after.shown ≡ fresh.shown ++ (data_text text 15 ∷ []))
handle_data_new_example =
    handle_data_new (env_at 200) text 15 from_sender fresh (omega arith) (omega arith) fresh-IsValid
      unknown
