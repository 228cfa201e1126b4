-- ===== src/Gui/Traffic.antt =====
-- What the process of `handle_gui` writes to pipes and sends to browsers, and the calls that it gets.
use projet_reseau.Prelude.{
  ℕ, ◌≤◌, ◌≡◌, refl, ap, ◌∙◌, subst, List, [], ◌∷◌, ◌++◌, append_assoc, Option, none, some, Bool,
  true, false, ◌||◌, if◌then◌else◌, ◌==◌, length, arith,
}
use projet_reseau.Prelude.Int.{ℤ, pos, negsuc}
use projet_reseau.Gui.{
  Action, adopt, close, write, lws_write, Gui, Reason, established, receive, raw_rx_file, Call,
  room,
}

abbrev pub same_fd : ℤ → ℤ → Bool
same_fd (pos a) (pos b) = a == b
same_fd (negsuc a) (negsuc b) = a == b
same_fd _ _ = false

-- The bytes that are written to a descriptor.
unfoldable pub written : ℤ → List Action → List ℕ
written fd [] = []
written fd (write fd' bytes ∷ xs) = if same_fd fd' fd then bytes ++ written fd xs else written fd xs
written fd (adopt fd' wsi ∷ xs) = written fd xs
written fd (close fd' ∷ xs) = written fd xs
written fd (lws_write wsi bytes ∷ xs) = written fd xs

-- The frames that are sent, with their connections.
unfoldable pub frames : List Action → List (ℕ × List ℕ)
frames [] = []
frames (lws_write wsi bytes ∷ xs) = (wsi, bytes) ∷ frames xs
frames (adopt fd wsi ∷ xs) = frames xs
frames (close fd ∷ xs) = frames xs
frames (write fd bytes ∷ xs) = frames xs

written-append :
    (fd : ℤ) (xs ys : List Action) → written fd (xs ++ ys) ≡ written fd xs ++ written fd ys
unfolding written
written-append fd [] ys = refl
written-append fd (write fd' bytes ∷ xs) ys =
    ground (arith, written-append fd xs ys, append_assoc bytes (written fd xs) (written fd ys))
written-append fd (adopt fd' wsi ∷ xs) ys = written-append fd xs ys
written-append fd (close fd' ∷ xs) ys = written-append fd xs ys
written-append fd (lws_write wsi bytes ∷ xs) ys = written-append fd xs ys

frames-append : (xs ys : List Action) → frames (xs ++ ys) ≡ frames xs ++ frames ys
unfolding frames
frames-append [] ys = refl
frames-append (write fd bytes ∷ xs) ys = frames-append xs ys
frames-append (adopt fd wsi ∷ xs) ys = frames-append xs ys
frames-append (close fd ∷ xs) ys = frames-append xs ys
frames-append (lws_write wsi bytes ∷ xs) ys = ap (◌∷◌ (wsi, bytes)) (frames-append xs ys)

pub same_fd_refl : (fd : ℤ) → same_fd fd fd ≡ true
same_fd_refl (pos a) = ground arith
same_fd_refl (negsuc a) = ground arith

-- What the browsers send in a call.
unfoldable pub typed_in : Reason → Call → List ℕ
typed_in receive c = c.input
typed_in _ c = []

-- The frame for what waits at a descriptor.
abbrev pub frame_of : ℕ → Option (List ℕ) → List (ℕ × List ℕ)
frame_of parent none = []
frame_of parent (some bytes) = (parent, bytes) ∷ []

-- The frames that a call sends, where the peer writes to the pipe with the read end `fd`.
unfoldable pub shown_in : ℤ → Reason → Call → List (ℕ × List ℕ)
shown_in fd raw_rx_file c = frame_of c.parent (c.waiting fd)
shown_in fd _ c = []

unfoldable pub typed : List Call → List ℕ
unfolding typed_in
typed [] = []
typed (c ∷ cs) = typed_in c.reason c ++ typed cs

unfoldable pub relayed : ℤ → List Call → List (ℕ × List ℕ)
unfolding shown_in
relayed fd [] = []
relayed fd (c ∷ cs) = shown_in fd c.reason c ++ relayed fd cs

abbrev pub connects : Reason → Bool
connects established = true
connects _ = false

-- A call for which there is memory and room.
abbrev pub Fits : Option (List ℕ) → Type 0
Fits none = Unit
Fits (some bytes) = length bytes ≤ room

-- The pipe is only read behind a connection.
abbrev pub Allowed : Bool → Reason → Type 0
Allowed connected raw_rx_file = connected ≡ true
Allowed connected _ = Unit

pub record IsGood (fd : ℤ) (connected : Bool) (c : Call) : Type 0 where
  pub allocated : c.allocated ≡ true
  pub adopted : c.adopted ≡ true
  pub input : length c.input ≤ room
  pub waiting : Fits (c.waiting fd)
  pub allowed : Allowed connected c.reason

abbrev pub AreGood : ℤ → Bool → List Call → Type 0
AreGood fd connected [] = Unit
AreGood fd connected (c ∷ cs) =
    IsGood fd connected c × AreGood fd (connected || connects c.reason) cs

-- Behind a connection, the descriptor that is read is this.
pub record Reads (fd : ℤ) (connected : Bool) (g : Gui) : Type 0 where
  pub same_read : g.magic_read ≡ fd
  pub opened : connected ≡ true → g.filefd ≡ some fd

-- From one state to another: the bytes that went to the peer, and the frames that went to browsers.
pub record Relays (new : List ℕ) (shown : List (ℕ × List ℕ)) (g g' : Gui) : Type 0 where
  pub same_pipe : g'.magic_write ≡ g.magic_write
  pub same_flag : g'.interrupted ≡ g.interrupted
  pub text : written g.magic_write g'.actions ≡ written g.magic_write g.actions ++ new
  pub sent : frames g'.actions ≡ frames g.actions ++ shown

pub Relays-step :
    (g g' : Gui) (xs : List Action)
    → g'.magic_write ≡ g.magic_write
    → g'.interrupted ≡ g.interrupted
    → g'.actions ≡ g.actions ++ xs
    → Relays (written g.magic_write xs) (frames xs) g g'
Relays-step g g' xs h j e = record {
  same_pipe = h;
  same_flag = j;
  text = rw e (written-append g.magic_write g.actions xs);
  sent = rw e (frames-append g.actions xs);
}

pub Relays_trans :
    (s t : List ℕ) (u v : List (ℕ × List ℕ)) (g g' g'' : Gui)
    → Relays s u g g'
    → Relays t v g' g''
    → Relays (s ++ t) (u ++ v) g g''
Relays_trans s t u v g g' g'' a b = record {
  same_pipe = b.same_pipe ∙ a.same_pipe;
  same_flag = b.same_flag ∙ a.same_flag;
  text =
      subst (λ fd. written fd g''.actions ≡ written fd g'.actions ++ t) a.same_pipe b.text
      ∙ rw a.text (append_assoc (written g.magic_write g.actions) s t);
  sent = b.sent ∙ rw a.sent (append_assoc (frames g.actions) u v);
}
