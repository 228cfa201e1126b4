-- ===== src/Gui/Relay.antt =====
-- What passes between the browsers and the peer through the process of `handle_gui`.
use projet_reseau.Prelude.{
  ℕ, suc, ◌+◌, ◌%◌, ◌^◌, ◌≤◌, ◌≡◌, refl, sym, ap, ◌∙◌, subst, List, [], ◌∷◌, ◌++◌, append_assoc,
  append-nil, Option, none, some, Bool, true, false, ◌||◌, ltb, take, take_all, length, All, arith,
}
use projet_reseau.Prelude.Int.{ℤ, pos}
use projet_reseau.Gui.Traffic.{
  written, frames, same_fd_refl, typed_in, shown_in, typed, relayed, connects, Fits, Allowed,
  frame_of, Reads, AreGood, Relays, Relays-step, Relays_trans,
}
use projet_reseau.Gui.{
  Lws, adopt, write, lws_write, Gui, Reason, established, receive, raw_adopt_file, raw_rx_file,
  other, Call, room, forward, callback_chat, connect, read_file, handle, call_all, Service,
  is_negative, serve, serve_browsers, info, Pipe, forked, handle_gui,
}

-- One call: it does not end the process, and it relays.
Answers : Lws → ℤ → Bool → Reason → Call → Gui → Type 0
Answers lws fd b r c g =
    (g' : Gui) × (rc : ℕ) × (handle lws r c g ≡ some (g', rc))
    × Reads fd (b || connects r) g'
    × Relays (typed_in r c) (shown_in fd r c) g g'

-- Behind a call that does not connect, what is read is as before.
unchanged :
    (fd : ℤ) (b : Bool) (g g' : Gui)
    → Reads fd b g
    → g'.magic_read ≡ g.magic_read
    → g'.filefd ≡ g.filefd
    → Reads fd (b || false) g'
unchanged fd true g g' r e h = record {
  same_read = e ∙ r.same_read;
  opened = λ _. h ∙ r.opened refl;
}
unchanged fd false g g' r e h = record { same_read = e ∙ r.same_read; opened = λ o. h ∙ r.opened o }

own_write : (fd : ℤ) (bytes : List ℕ) → written fd (write fd bytes ∷ []) ≡ bytes
unfolding written
own_write fd bytes = rw (same_fd_refl fd) (append-nil bytes)

same : (g : Gui) → Relays [] [] g g
unfolding written frames
same g = Relays-step g g [] refl refl (sym (append-nil g.actions))

receive-Answers :
    (lws : Lws) (fd : ℤ) (b : Bool) (c : Call) (g : Gui)
    → Reads fd b g
    → Answers lws fd b receive c g
unfolding Answers handle typed_in shown_in frames
receive-Answers lws fd b c g r =
    let xs = write g.magic_write c.input ∷ [] in
    let g' : Gui = record g { actions = g.actions ++ xs } in
    let step = Relays-step g g' xs refl refl refl in
    (
      g',
      0,
      refl,
      unchanged fd b g g' r refl refl,
      subst (λ new. Relays new [] g g') (own_write g.magic_write c.input) step,
    )

established-Answers :
    (lws : Lws) (fd : ℤ) (b : Bool) (c : Call) (g : Gui)
    → c.allocated ≡ true
    → c.adopted ≡ true
    → Reads fd b g
    → Answers lws fd b established c g
unfolding Answers handle connect typed_in shown_in frames written
established-Answers lws fd b c g m e r =
    let xs = adopt g.magic_read c.wsi ∷ [] in
    let g' : Gui = record g { filefd = some g.magic_read; actions = g.actions ++ xs } in
    (
      g',
      0,
      rw (m, e) refl,
      record { same_read = r.same_read; opened = λ _. ap some r.same_read },
      Relays-step g g' xs refl refl refl,
    )

-- A read that fits is sent on whole.
forward_lem :
    (lws : Lws) (parent : ℕ) (w : Option (List ℕ)) (g : Gui)
    → Fits w
    → (g' : Gui) × (forward lws parent w g ≡ some (g', 0))
      × (g'.magic_read ≡ g.magic_read)
      × (g'.filefd ≡ g.filefd)
      × Relays [] (frame_of parent w) g g'
unfolding forward written frames
forward_lem lws parent none g h = (g, refl, refl, refl, same g)
forward_lem lws parent (some bytes) g h =
    let xs = lws_write parent bytes ∷ [] in
    let whole : take (lws.lws_pre + room) bytes ≡ bytes =
      take_all (lws.lws_pre + room) bytes (omega arith) in
    let fits : ltb room (length bytes) ≡ false = ground arith in
    let g' = record g { actions = g.actions ++ xs } in
    (g', rw (whole, fits) refl, refl, refl, Relays-step g g' xs refl refl refl)

answers_read :
    (lws : Lws) (fd : ℤ) (c : Call) (g : Gui) (vhd : Option ℤ)
    → vhd ≡ some fd
    → is_negative fd ≡ false
    → length c.input ≤ room
    → Fits (c.waiting fd)
    → (g' : Gui) × (read_file lws vhd c g ≡ some (g', 0))
      × (g'.magic_read ≡ g.magic_read)
      × (g'.filefd ≡ g.filefd)
      × Relays [] (shown_in fd raw_rx_file c) g g'
unfolding read_file shown_in
answers_read lws fd c g vhd a n i w =
    let fits : ltb room (length c.input) ≡ false = ground arith in
    rw (a, n, fits) (forward_lem lws c.parent (c.waiting fd) g w)

answers :
    (lws : Lws) (fd : ℤ) (b : Bool) (c : Call) (g : Gui) (r : Reason)
    → is_negative fd ≡ false
    → c.allocated ≡ true
    → c.adopted ≡ true
    → length c.input ≤ room
    → Fits (c.waiting fd)
    → Allowed b r
    → Reads fd b g
    → Answers lws fd b r c g
unfolding Answers handle typed_in shown_in
answers lws fd b c g receive n m d i w a r = receive-Answers lws fd b c g r
answers lws fd b c g raw_adopt_file n m d i w a r =
    (g, 0, refl, unchanged fd b g g r refl refl, same g)
answers lws fd b c g other n m d i w a r = (g, 0, refl, unchanged fd b g g r refl refl, same g)
answers lws fd b c g established n m d i w a r = established-Answers lws fd b c g m d r
answers lws fd b c g raw_rx_file n m d i w a r =
    let (g', result, kept, file, relays) = answers_read lws fd c g g.filefd (r.opened a) n i w in
    (g', 0, result, unchanged fd b g g' r kept file, relays)

counted : Gui → Gui
counted g = record g { counter = (g.counter + 1) % 2 ^ 32 }

-- One call after the other, with what is left of the list of calls.
pub CallsAnswer : Lws → ℤ → List Call → List Call → Gui → Type 0
CallsAnswer lws fd cs later g =
    (g' : Gui) × (b : Bool) × (call_all lws cs g ≡ some g')
    × Reads fd b g'
    × AreGood fd b later
    × Relays (typed cs) (relayed fd cs) g g'

calls_answer :
    (lws : Lws) (fd : ℤ) (b : Bool) (cs later : List Call) (g : Gui)
    → is_negative fd ≡ false
    → Reads fd b g
    → AreGood fd b (cs ++ later)
    → CallsAnswer lws fd cs later g
unfolding CallsAnswer call_all typed relayed callback_chat counted Answers
calls_answer lws fd b [] later g n r h = (g, b, refl, r, h, same g)
calls_answer lws fd b (c ∷ cs) later g n r (h, hs) =
    let r' : Reads fd b (counted g) = record { same_read = r.same_read; opened = r.opened } in
    let (g', rc, result, reads, first) =
      answers lws fd b c (counted g) c.reason n h.allocated h.adopted h.input h.waiting h.allowed
        r' in
    let (g'', b'', results, last, good, rest) =
      calls_answer lws fd (b || connects c.reason) cs later g' n reads hs in
    let from_g : Relays (typed_in c.reason c) (shown_in fd c.reason c) g g' = record {
      same_pipe = first.same_pipe;
      same_flag = first.same_flag;
      text = first.text;
      sent = first.sent;
    } in
    (
      g'',
      b'',
      rw result results,
      last,
      good,
      Relays_trans (typed_in c.reason c) (typed cs) (shown_in fd c.reason c) (relayed fd cs) g g'
          g'' from_g rest,
    )

unfoldable pub all_calls : List Service → List Call
all_calls [] = []
all_calls (s ∷ ss) = s.calls ++ all_calls ss

typed-append : (cs ds : List Call) → typed (cs ++ ds) ≡ typed cs ++ typed ds
unfolding typed
typed-append [] ds = refl
typed-append (c ∷ cs) ds =
    rw (typed-append cs ds) (sym (append_assoc (typed_in c.reason c) (typed cs) (typed ds)))

relayed-append :
    (fd : ℤ) (cs ds : List Call) → relayed fd (cs ++ ds) ≡ relayed fd cs ++ relayed fd ds
unfolding relayed
relayed-append fd [] ds = refl
relayed-append fd (c ∷ cs) ds =
    rw (relayed-append fd cs ds)
      (sym (append_assoc (shown_in fd c.reason c) (relayed fd cs) (relayed fd ds)))

-- The services end well.
abbrev pub IsOk : Service → Type 0
IsOk s = is_negative s.result ≡ false

going :
    (n : ℤ) (g : Gui)
    → is_negative n ≡ false
    → g.interrupted ≡ false
    → (is_negative n || g.interrupted) ≡ false
going n g h i = rw h i

serves :
    (lws : Lws) (fd : ℤ) (b : Bool) (n : ℤ) (ss : List Service) (g : Gui)
    → is_negative fd ≡ false
    → is_negative n ≡ false
    → g.interrupted ≡ false
    → All IsOk ss
    → Reads fd b g
    → AreGood fd b (all_calls ss)
    → (g' : Gui) × (serve lws n ss g ≡ some (g', false))
      × Relays (typed (all_calls ss)) (relayed fd (all_calls ss)) g g'
unfolding serve all_calls CallsAnswer typed relayed
serves lws fd b n [] g k h i a r good = (g, rw (going n g h i) refl, same g)
serves lws fd b n (s ∷ ss) g k h i a r good =
    let (g', b', result, reads, later, first) =
      calls_answer lws fd b s.calls (all_calls ss) g k r good in
    let (g'', results, rest) =
      serves lws fd b' s.result ss g' k a.0 (first.same_flag ∙ i) a.1 reads later in
    (
      g'',
      rw (going n g h i, result) results,
      rw (typed-append s.calls (all_calls ss), relayed-append fd s.calls (all_calls ss))
          (Relays_trans (typed s.calls) (typed (all_calls ss)) (relayed fd s.calls)
            (relayed fd (all_calls ss)) g g' g'' first rest),
    )

-- The process behind `fork` that serves the browsers goes on for as long as its services end well,
-- its calls get memory and the descriptor adopted, fit the buffer, and read the pipe behind a first
-- connection. All that the browsers send is then written, in order, to the end of the pipe `fd2`
-- that the other process, the peer, reads as its `FD_MAGIC_READ`; and what waits at the read end of
-- the pipe `fd`, which the peer writes as its `FD_MAGIC_WRITE`, when a call reads is sent to the
-- parent of the connection that was called, a frame for each read.
pub handle_gui_relays :
    (lws : Lws) (pid : ℕ) (fd fd2 : Pipe) (ss : List Service)
    → lws.create_context (info lws) ≡ true
    → is_negative fd.read_end ≡ false
    → All IsOk ss
    → AreGood fd.read_end false (all_calls ss)
    → (g : Gui) × (handle_gui lws (pos (suc pid)) fd fd2 ss ≡ some (g, false))
      × (written fd2.write_end g.actions ≡ typed (all_calls ss))
      × (frames g.actions ≡ relayed fd.read_end (all_calls ss))
      × ((forked (pos 0) fd fd2).magic_read ≡ fd2.read_end)
      × ((forked (pos 0) fd fd2).magic_write ≡ fd.write_end)
      × (g.magic_write ≡ fd2.write_end)
unfolding handle_gui serve_browsers forked written frames
handle_gui_relays lws pid fd fd2 ss h n a good =
    let start = forked (pos (suc pid)) fd fd2 in
    let reads : Reads fd.read_end false start = record {
      same_read = refl;
      opened = λ o. absurd (ground arith);
    } in
    let (g, result, relays) =
      serves lws fd.read_end false (pos 0) ss start n refl refl a reads good in
    (g, rw h result, relays.text, relays.sent, refl, refl, relays.same_pipe)
