-- ===== src/Gui.antt =====
-- websocket.c: the process that serves the page to browsers, and the two pipes to the peer. The
-- calls of libwebsockets and of the system are arguments: what they return. What is written to the
-- terminal alone is left out.
pub mod Traffic
pub mod Relay
use projet_reseau.Prelude.{
  ℕ, zero, suc, ◌+◌, ◌%◌, ◌^◌, List, [], ◌∷◌, ◌++◌, Option, none, some, Bool, true, false, not,
  ◌||◌, if◌then◌else◌, ltb, ◌==◌, take, length,
}
use projet_reseau.Prelude.Int.{ℤ, pos, negsuc, minus_one}
use projet_reseau.Prelude.Text.{codes}

-- The fields of `struct lws_http_mount` that are not 0.
pub record Mount : Type 0 where
  pub mountpoint : List ℕ
  pub origin : List ℕ
  pub def : List ℕ
  pub origin_protocol : ℕ
  pub mountpoint_len : ℕ

-- The callbacks of `protocols`: the library's, and `callback_chat`.
pub data Callback : Type 0 where
  http_dummy : Callback
  chat : Callback

-- The fields of `struct lws_context_creation_info` that `handle_gui` sets.
pub record ContextInfo : Type 0 where
  pub port : ℕ
  pub mounts : Mount
  pub protocols : List (List ℕ × Callback)
  pub vhost_name : List ℕ
  pub options : ℕ

-- The library: its constants `LWS_PRE`, `LWSMPRO_FILE` and
-- `LWS_SERVER_OPTION_HTTP_HEADERS_SECURITY_BEST_PRACTICES_ENFORCE`, and whether it makes a context.
pub record Lws : Type 0 where
  pub lws_pre : ℕ
  pub lwsmpro_file : ℕ
  pub best_practices : ℕ
  pub create_context : ContextInfo → Bool

unfoldable pub mount : Lws → Mount
mount lws = record {
  mountpoint = codes "/";
  origin = codes ".";
  def = codes "chat.html";
  origin_protocol = lws.lwsmpro_file;
  mountpoint_len = 1;
}

-- Without the null entry that ends the array.
abbrev pub protocols : List (List ℕ × Callback)
protocols = (codes "http-only", http_dummy) ∷ (codes "chat-protocol", chat) ∷ []

-- What the process does, in its order: a descriptor is adopted for a connection, closed or written
-- to, and a frame is sent on a connection.
pub data Action : Type 0 where
  adopt : ℤ → ℕ → Action
  close : ℤ → Action
  write : ℤ → List ℕ → Action
  lws_write : ℕ → List ℕ → Action

-- The globals of a process behind `fork`, and `struct myupd_fd`, where it is allocated.
pub record Gui : Type 0 where
  pub magic_read : ℤ
  pub magic_write : ℤ
  pub interrupted : Bool
  pub counter : ℕ
  pub filefd : Option ℤ
  pub actions : List Action

unfoldable pub sigint_handler : Gui → Gui
sigint_handler g = record g { interrupted = true }

pub data Reason : Type 0 where
  established : Reason
  receive : Reason
  raw_adopt_file : Reason
  raw_rx_file : Reason
  other : Reason

-- A call of `callback_chat`: its connection and what `lws_get_parent` returns for it, the reason, the
-- `len` bytes at `in`, and what the calls in it return: whether memory is given, whether the
-- descriptor is adopted, and the bytes that wait at each descriptor, none where `read` fails.
pub record Call : Type 0 where
  pub wsi : ℕ
  pub parent : ℕ
  pub reason : Reason
  pub input : List ℕ
  pub allocated : Bool
  pub adopted : Bool
  pub waiting : ℤ → Option (List ℕ)

abbrev pub act : Gui → Action → Gui
act g a = record g { actions = g.actions ++ (a ∷ []) }

-- What a call leaves and returns; none is a fault, or what is not defined.
abbrev pub Called : Type 0
Called = Option (Gui × ℕ)

unfoldable pub connect : Call → Gui → Called
connect c g =
    let opened = act (record g { filefd = some g.magic_read }) (adopt g.magic_read c.wsi) in
    if not c.allocated
    then none
    else if c.adopted
    then some (opened, 0)
    else some (record (act opened (close g.magic_read)) { filefd = some minus_one }, 1)

-- The bytes of `buffer` behind its first `LWS_PRE`. `read` is given room for `LWS_PRE` more.
abbrev pub room : ℕ
room = 65537

abbrev pub is_negative : ℤ → Bool
is_negative (pos n) = false
is_negative (negsuc n) = true

-- The result of `read`, with the bytes that it stores. More than there is room for are written to
-- memory behind `buffer`: what follows is not defined, and none.
unfoldable pub forward : Lws → ℕ → Option (List ℕ) → Gui → Called
forward lws parent none g = some (g, 0)
forward lws parent (some bytes) g =
    let got = take (lws.lws_pre + room) bytes in
    if ltb room (length got) then none else some (act g (lws_write parent got), 0)

-- A null pointer that is read, or a `memset` that is too long, is a fault. A negative number is no
-- descriptor, and `read` fails.
unfoldable pub read_file : Lws → Option ℤ → Call → Gui → Called
unfolding forward
read_file lws none c g = none
read_file lws (some fd) c g =
    let got = if is_negative fd then none else c.waiting fd in
    if ltb room (length c.input) then none else forward lws c.parent got g

-- The cases of the `switch`.
unfoldable pub handle : Lws → Reason → Call → Gui → Called
unfolding connect read_file
handle lws established c g = connect c g
handle lws receive c g = some (act g (write g.magic_write c.input), 0)
handle lws raw_adopt_file c g = some (g, 0)
handle lws raw_rx_file c g = read_file lws g.filefd c g
handle lws other c g = some (g, 0)

unfoldable pub callback_chat : Lws → Call → Gui → Called
unfolding handle
callback_chat lws c g = handle lws c.reason c (record g { counter = (g.counter + 1) % 2 ^ 32 })

-- The calls during one `lws_service`, with its result. A call that returns 1 ends its connection.
pub record Service : Type 0 where
  pub calls : List Call
  pub result : ℤ

abbrev pub then_call : Called → (Gui → Option Gui) → Option Gui
then_call none next = none
then_call (some (g, rc)) next = next g

unfoldable pub call_all : Lws → List Call → Gui → Option Gui
unfolding callback_chat
call_all lws [] g = some g
call_all lws (c ∷ cs) g = then_call (callback_chat lws c g) (call_all lws cs)

abbrev pub then_serve : Option Gui → (Gui → Option (Gui × Bool)) → Option (Gui × Bool)
then_serve none next = none
then_serve (some g) next = next g

-- The loop of `handle_gui`: what the services leave, and whether it has ended.
unfoldable pub serve : Lws → ℤ → List Service → Gui → Option (Gui × Bool)
unfolding call_all
serve lws n [] g = some (g, is_negative n || g.interrupted)
serve lws n (s ∷ ss) g =
    let next = then_serve (call_all lws s.calls g) (serve lws s.result ss) in
    if is_negative n || g.interrupted then some (g, true) else next

-- The ends that `pipe` gives.
pub record Pipe : Type 0 where
  pub read_end : ℤ
  pub write_end : ℤ

abbrev pub process : ℤ → ℤ → List Action → Gui
process magic_read magic_write closed = record {
  magic_read = magic_read;
  magic_write = magic_write;
  interrupted = false;
  counter = 0;
  filefd = none;
  actions = closed;
}

-- A process behind `fork` with this result. A failing `fork` is taken for the parent's.
unfoldable pub forked : ℤ → Pipe → Pipe → Gui
forked (pos zero) fd fd2 =
    process fd2.read_end fd.write_end (close fd.read_end ∷ close fd2.write_end ∷ [])
forked (pos (suc pid)) fd fd2 =
    process fd.read_end fd2.write_end (close fd.write_end ∷ close fd2.read_end ∷ [])
forked (negsuc n) fd fd2 =
    process fd.read_end fd2.write_end (close fd.write_end ∷ close fd2.read_end ∷ [])

unfoldable pub info : Lws → ContextInfo
unfolding mount
info lws = record {
  port = 8000;
  mounts = mount lws;
  protocols = protocols;
  vhost_name = codes "localhost";
  options = lws.best_practices;
}

-- The server: without a context it returns at once.
unfoldable pub serve_browsers : Lws → List Service → Gui → Option (Gui × Bool)
unfolding serve info
serve_browsers lws services g =
    if lws.create_context (info lws) then serve lws (pos 0) services g else some (g, true)

-- The globals behind `handle_gui`, and whether it has returned to `main`: in the child at once.
unfoldable pub handle_gui : Lws → ℤ → Pipe → Pipe → List Service → Option (Gui × Bool)
unfolding forked serve_browsers
handle_gui lws (pos zero) fd fd2 services = some (forked (pos zero) fd fd2, true)
handle_gui lws (pos (suc pid)) fd fd2 services =
    serve_browsers lws services (forked (pos (suc pid)) fd fd2)
handle_gui lws (negsuc n) fd fd2 services = serve_browsers lws services (forked (negsuc n) fd fd2)
