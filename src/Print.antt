-- ===== src/Print.antt =====
-- What the program writes to the terminal: the functions of abr.c, lines 287 to 315, genlist.c, lines
-- 136 to 142, net_lib.c, lines 221 to 256, and the handler `warning` of tlv.c. What `printf` writes and
-- what `write` writes come in the order of the calls: each text ends its line before a `write`.
pub mod Lines
use projet_reseau.Prelude.{
  ℕ, zero, suc, ◌+◌, ◌-◌, ◌^◌, List, [], ◌∷◌, ◌++◌, Option, if◌then◌else◌, ltb, ◌==◌, take, drop,
  get_or, replicate, length,
}
use projet_reseau.Prelude.Text.{codes, decimal, printed, newline}
use projet_reseau.Bytes.{ntohs}
use projet_reseau.Neighbor.{Addr, Neighbor, Ident, MessageH}
use projet_reseau.Abr.{Tree, leaf, node}
use projet_reseau.Genlist.{GenList}
use projet_reseau.Sockets.{SockAddr}

-- `%d` of 32 bits.
unfoldable pub decimal_int : ℕ → List ℕ
unfolding decimal
decimal_int n = if ltb n (2 ^ 31) then decimal n else b'-' ∷ decimal (2 ^ 32 - n)

-- The text that `print_tlv` writes, and its result.
unfoldable pub print_tlv : List ℕ → List ℕ × ℕ
unfolding decimal
print_tlv buf =
    if get_or buf 0 0 == 0 then (printed ((9 ∷ codes " tlv 1, size 1") ∷ newline ∷ []), 1) else (
      printed (
          (9 ∷ codes " tlv ")
          ∷ decimal (get_or buf 0 0)
          ∷ codes ", size "
          ∷ decimal (get_or buf 1 0)
          ∷ newline
          ∷ []),
      get_or buf 1 0,
    )

-- The loop of `print_msg`, on fuel: `body` is the memory from `msg.body+i` on, and `left` is `l - i`.
-- Each round goes on by two bytes at least.
unfoldable pub print_tlvs : ℕ → List ℕ → ℕ → List ℕ
print_tlvs zero body left = []
print_tlvs (suc fuel) body left =
    let (text, size) = print_tlv body in
    let rest = text ++ print_tlvs fuel (drop (size + 2) body) (left - (size + 2)) in
    if left == 0 then [] else rest

unfoldable pub print_msg : MessageH → List ℕ
unfolding print_tlvs
print_msg msg =
    let l = ntohs msg.body_length in
    printed (
      codes "magic = "
      ∷ decimal msg.magic
      ∷ codes ", version = "
      ∷ decimal msg.version
      ∷ codes ", length = "
      ∷ decimal l
      ∷ newline
      ∷ codes " data :"
      ∷ newline
      ∷ print_tlvs (l + 1) msg.body l
      ∷ newline
      ∷ [])

-- What `%s` writes: the bytes in front of the first 0.
unfoldable pub string : List ℕ → List ℕ
string [] = []
string (c ∷ cs) = if c == 0 then [] else c ∷ string cs

-- `warning` copies its argument and writes it; no state changes.
unfoldable pub warning : List ℕ → ℕ → List ℕ
unfolding string
warning tlv len = printed (codes "Warning: " ∷ string (take len tlv) ∷ newline ∷ [])

-- A line of `print_tree_aux`, at its depth: a null pointer, or a neighbour.
pub data Row : Type 0 where
  null : ℕ → Row
  entry : ℕ → Addr → Row

unfoldable pub print_tree_aux : Tree → ℕ → List Row
print_tree_aux leaf tmp = null tmp ∷ []
print_tree_aux (node k v left right) tmp =
    print_tree_aux left (tmp + 1) ++ (entry tmp k.addr ∷ print_tree_aux right (tmp + 1))

unfoldable pub print_tree : Tree → List Row
unfolding print_tree_aux
print_tree t = print_tree_aux t 0

-- The array `vide`: 23 tabs in 40 bytes.
abbrev pub vide : List ℕ
vide = replicate 23 9 ++ replicate 17 0

module _ {ℓ} {A : Type ℓ} (entry_at content_at : A → List ℕ) where
  -- The lines for the entries; the arguments of the section say what `%p` writes for the address of
  -- an entry and for its content.
  pub print_entries : List A → List ℕ
  print_entries [] = []
  print_entries (e ∷ es) = printed (
      codes "Element de liste : "
      ∷ entry_at e
      ∷ newline
      ∷ codes "Content : "
      ∷ content_at e
      ∷ newline
      ∷ print_entries es
      ∷ [])

  pub print_list : GenList A → List ℕ
  unfolding print_entries
  print_list this = printed (
      codes "La longueur de la liste : "
      ∷ decimal this.length
      ∷ newline
      ∷ print_entries this.entries
      ∷ [])

-- The argument is what `inet_ntop` makes of the 16 bytes of an address.
module _ (inet_ntop : List ℕ → List ℕ) where
  pub print_addr : List ℕ → List ℕ
  print_addr ip = printed (codes "Address: " ∷ inet_ntop ip ∷ newline ∷ [])

  pub print_addr2 : List ℕ → List ℕ
  print_addr2 ip = inet_ntop ip

  pub print_key : Addr → List ℕ
  unfolding print_addr
  print_key key =
      printed
        (codes "IP : " ∷ print_addr key.ip ∷ codes " Port : " ∷ decimal key.port ∷ codes " " ∷ [])

  -- The text of a line.
  pub row_text : Row → List ℕ
  unfolding print_addr2
  row_text (null tmp) = printed (take tmp vide ∷ codes "null" ∷ newline ∷ [])
  row_text (entry tmp key) =
      printed (take tmp vide ∷ print_addr2 key.ip ∷ codes " -- " ∷ decimal key.port ∷ newline ∷ [])

  pub print_sockaddr : SockAddr → List ℕ
  unfolding print_addr
  print_sockaddr tmp = printed (
      codes "sin6_family = "
      ∷ decimal tmp.sin6_family
      ∷ newline
      ∷ codes " sin6_port = "
      ∷ decimal tmp.sin6_port
      ∷ newline
      ∷ codes "sin6_flowinfo = "
      ∷ decimal_int tmp.sin6_flowinfo
      ∷ newline
      ∷ codes "sin6_addr = "
      ∷ print_addr tmp.sin6_addr
      ∷ codes "sin6_scope_id = "
      ∷ decimal_int tmp.sin6_scope_id
      ∷ newline
      ∷ [])

-- `%u` of an `int` that is not negative.
pub print_val : Ident → List ℕ
print_val val = printed (
    codes "Id : "
    ∷ decimal val.id
    ∷ codes "Last hello : "
    ∷ decimal val.last_hello
    ∷ codes " Last long hello : "
    ∷ decimal val.last_hello_long
    ∷ codes " "
    ∷ [])
