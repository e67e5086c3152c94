-- ===== src/Multipath/Candidate/Window.antt =====
-- The ring of probes against the window of newest results, pkg/wstransport/multipath.go.
use ntwire.Base.{
  ℕ, zero, suc, ◌+◌, ◌-◌, ◌≤◌, ◌<◌, String, ◌≡◌, refl, sym, ap, subst, ◌∙◌, ◌⊎◌, inl, inr, Bool,
  true, false, List, [], ◌∷◌, ◌++◌, append_assoc, append-nil, arith, dec_lt, length, take, drop,
  set, length-append, length-drop, take-length-append,
}
use ntwire.Base.{append-nil, append_assoc}
use ntwire.Multipath.Transports.{PathKind}
use ntwire.Multipath.Candidate.{
  Candidate, Loss, window_size, new_candidate, good, loss_of, note_probe, probed, miss, answer,
  replicate_false,
}

-- The specification: the newest results, at most the size of the window, oldest first.
abbrev pub newest : List Bool → List Bool
newest oks = drop (length oks - window_size) oks

-- One result more.
abbrev slide : List Bool → Bool → List Bool
slide w ok = drop (suc (length w) - window_size) (w ++ ok ∷ [])

drop-append_le {ℓ} :
    {A : Type ℓ} (n : ℕ) (xs ys : List A) → n ≤ length xs → drop n (xs ++ ys) ≡ drop n xs ++ ys
drop-append_le zero xs ys h = refl
drop-append_le (suc n) [] ys h = absurd (omega arith)
drop-append_le (suc n) (x ∷ xs) ys h = drop-append_le n xs ys (omega arith)

drop_one {ℓ} : {A : Type ℓ} (n : ℕ) (xs : List A) → drop 1 (drop n xs) ≡ drop (suc n) xs
drop_one zero xs = refl
drop_one (suc n) [] = refl
drop_one (suc n) (x ∷ xs) = drop_one n xs

-- One result more drops the oldest, once the window is full.
slide-newest : (oks : List Bool) (ok : Bool) → slide (newest oks) ok ≡ newest (oks ++ ok ∷ [])
slide-newest oks ok = elim (dec_lt (length oks) window_size) [
  | yes few ↦
      let none_left : length oks - window_size ≡ 0 = omega arith in
      let none_after : length (oks ++ ok ∷ []) - window_size ≡ 0 =
        omega (arith, length-append oks (ok ∷ [])) in
      let none_now : suc (length oks) - window_size ≡ 0 = omega arith in
      rw (none_left, none_after, none_now) refl
  | no many ↦
      let more : length (oks ++ ok ∷ []) - window_size ≡ suc (length oks - window_size) =
        omega (arith, length-append oks (ok ∷ [])) in
      let size : length (newest oks) ≡ window_size =
        omega (arith, length-drop (length oks - window_size) oks) in
      rw (more, size)
        (drop-append_le 1 (newest oks) (ok ∷ []) (omega arith)
          ∙ ap (λ t. t ++ ok ∷ []) (drop_one (length oks - window_size) oks)
          ∙ sym (drop-append_le (suc (length oks - window_size)) oks (ok ∷ []) (omega arith)))
]

set-append :
    (xs ys : List Bool) (y v : Bool) → set (xs ++ y ∷ ys) (length xs) v ≡ (xs ++ v ∷ []) ++ ys
set-append [] ys y v = refl
set-append (x ∷ xs) ys y v = ap (λ t. x ∷ t) (set-append xs ys y v)

good-append : (xs ys : List Bool) → good (xs ++ ys) ≡ good xs + good ys
unfolding good
good-append [] ys = omega arith
good-append (x ∷ xs) ys = omega (arith, good-append xs ys)

good-le-length : (xs : List Bool) → good xs ≤ length xs
unfolding good
good-le-length [] = omega arith
good-le-length (x ∷ xs) = ground (arith, good-le-length xs)

-- How the ring of a candidate holds the window: from its start while it fills, then turned round.
record IsFilling (probes : List Bool) (probe_next used : ℕ) (w : List Bool) : Type 0 where
  pad : List Bool
  split : probes ≡ w ++ pad
  short : length w + length pad ≡ window_size
  room : length w < window_size
  at_next : probe_next ≡ length w
  all_used : used ≡ length w

record IsFull (probes : List Bool) (probe_next used : ℕ) (w : List Bool) : Type 0 where
  new : List Bool
  old : List Bool
  split : probes ≡ new ++ old
  window : w ≡ old ++ new
  size : length new + length old ≡ window_size
  room : length new < window_size
  at_next : probe_next ≡ length new
  all_used : used ≡ window_size

abbrev Holds : Candidate → List Bool → Type 0
Holds p w = IsFilling p.probes p.probe_next p.used w ⊎ IsFull p.probes p.probe_next p.used w

nil_of_length : (xs : List Bool) → length xs ≡ 0 → xs ≡ []
nil_of_length [] h = refl
nil_of_length (x ∷ xs) h = absurd (omega arith)

take_all : (n : ℕ) (xs : List Bool) → length xs ≤ n → take n xs ≡ xs
take_all zero [] h = refl
take_all zero (x ∷ xs) h = absurd (omega arith)
take_all (suc n) [] h = refl
take_all (suc n) (x ∷ xs) h = ap (λ t. x ∷ t) (take_all n xs (omega arith))

slide_short : (w : List Bool) (ok : Bool) → length w < window_size → slide w ok ≡ w ++ ok ∷ []
slide_short w ok h =
    let none_left : suc (length w) - window_size ≡ 0 = omega arith in rw none_left refl

slide_full :
    (w new : List Bool) (b ok : Bool)
    → length (b ∷ w) + length new ≡ window_size
    → slide ((b ∷ w) ++ new) ok ≡ w ++ (new ++ ok ∷ [])
slide_full w new b ok h =
    let one : suc (length ((b ∷ w) ++ new)) - window_size ≡ 1 =
      omega (arith, length-append (b ∷ w) new) in
    rw one (append_assoc w new (ok ∷ []))

IsFilling-note_probe :
    (ok : Bool) (p : Candidate) (w : List Bool)
    → IsFilling p.probes p.probe_next p.used w
    → Holds (note_probe ok p) (slide w ok)
unfolding note_probe
IsFilling-note_probe ok p w f = rw (slide_short w ok f.room) (step f.pad refl)
  where
    open f use {pad, split, short, room, at_next, all_used}

    step : (rest : List Bool) → pad ≡ rest → Holds (note_probe ok p) (w ++ ok ∷ [])
    step [] e = absurd (omega (arith, ap length e))
    step (b ∷ rest) e =
        let moved : set p.probes p.probe_next ok ≡ (w ++ ok ∷ []) ++ rest =
          rw (split, at_next, e) (set-append w rest b ok) in
        let longer : length (w ++ ok ∷ []) ≡ suc (length w) =
          omega (arith, length-append w (ok ∷ [])) in
        let total : suc (length w) + length rest ≡ window_size = omega (arith, ap length e) in
        elim (dec_lt (suc (length w)) window_size) [
          | yes more ↦ inl (record {
            pad = rest;
            split = moved;
            short = omega arith;
            room = omega arith;
            at_next = ground arith;
            all_used = ground arith;
          })
          | no last ↦ inr (record {
            new = [];
            old = w ++ ok ∷ [];
            split =
                moved
                ∙ (ap (λ r. (w ++ ok ∷ []) ++ r) (nil_of_length rest (omega arith)) ∙ append-nil _);
            window = sym (append-nil _);
            size = omega arith;
            room = omega arith;
            at_next = ground arith;
            all_used = ground arith;
          })
        ]

IsFull-note_probe :
    (ok : Bool) (p : Candidate) (w : List Bool)
    → IsFull p.probes p.probe_next p.used w
    → Holds (note_probe ok p) (slide w ok)
unfolding note_probe
IsFull-note_probe ok p w f = step old refl
  where
    open f use {new, old, split, window, size, room, at_next, all_used}

    step : (rest : List Bool) → old ≡ rest → Holds (note_probe ok p) (slide w ok)
    step [] e = absurd (omega (arith, ap length e))
    step (b ∷ rest) e =
        let slid : slide w ok ≡ rest ++ (new ++ ok ∷ []) =
          rw (window, e) (slide_full rest new b ok (omega (arith, ap length e))) in
        let moved : set p.probes p.probe_next ok ≡ (new ++ ok ∷ []) ++ rest =
          rw (split, at_next, e) (set-append new rest b ok) in
        let longer : length (new ++ ok ∷ []) ≡ suc (length new) =
          omega (arith, length-append new (ok ∷ [])) in
        let total : suc (length new) + length rest ≡ window_size = omega (arith, ap length e) in
        elim (dec_lt (suc (length new)) window_size) [
          | yes more ↦ inr (record {
            new = new ++ ok ∷ [];
            old = rest;
            split = moved;
            window = slid;
            size = omega arith;
            room = omega arith;
            at_next = ground arith;
            all_used = ground arith;
          })
          | no last ↦ inr (record {
            new = [];
            old = new ++ ok ∷ [];
            split =
                moved
                ∙ (ap (λ r. (new ++ ok ∷ []) ++ r) (nil_of_length rest (omega arith))
                    ∙ append-nil _);
            window =
                slid
                ∙ (ap (λ r. r ++ (new ++ ok ∷ [])) (nil_of_length rest (omega arith))
                    ∙ sym (append-nil _));
            size = omega arith;
            room = omega arith;
            at_next = ground arith;
            all_used = ground arith;
          })
        ]

-- The loss of a ring that holds a window is the window's.
loss_of-Holds :
    (p : Candidate) (w : List Bool)
    → Holds p w
    → 0 < length w
    → loss_of p ≡ record { failed = length w - good w; probed = length w }
unfolding loss_of
loss_of-Holds p w (inl f) lt =
    let prefix : take p.used p.probes ≡ w = rw (f.all_used, f.split) (take-length-append w f.pad) in
    ground (arith, prefix, f.all_used)
loss_of-Holds p w (inr f) lt =
    let whole : take p.used p.probes ≡ f.new ++ f.old =
      rw (f.all_used, f.split)
        (take_all window_size (f.new ++ f.old)
          (omega (arith, f.size, length-append f.new f.old))) in
    ground (
      arith,
      whole,
      f.all_used,
      f.window,
      f.size,
      good-append f.new f.old,
      good-append f.old f.new,
      length-append f.old f.new,
    )

-- `ProbeResult` once for each result, in order, with its round trip and its time.
unfoldable pub after_probes : Candidate → List (ℕ × Bool × ℕ) → Candidate
after_probes p [] = p
after_probes p ((rtt, ok, now) ∷ results) = after_probes (probed rtt ok now p) results

abbrev pub outcomes : List (ℕ × Bool × ℕ) → List Bool
outcomes [] = []
outcomes ((rtt, ok, now) ∷ results) = ok ∷ outcomes results

note_probe-Holds :
    (ok : Bool) (p : Candidate) (w : List Bool) → Holds p w → Holds (note_probe ok p) (slide w ok)
note_probe-Holds ok p w (inl f) = IsFilling-note_probe ok p w f
note_probe-Holds ok p w (inr f) = IsFull-note_probe ok p w f

-- What else an outcome changes is not the ring.
probed-Holds :
    (rtt : ℕ) (ok : Bool) (now : ℕ) (p : Candidate) (w : List Bool)
    → Holds p w
    → Holds (probed rtt ok now p) (slide w ok)
unfolding probed miss answer
probed-Holds rtt true now p w h = note_probe-Holds true p w h
probed-Holds rtt false now p w h = note_probe-Holds false p w h

length-slide : (w : List Bool) (ok : Bool) → 0 < length (slide w ok)
length-slide w ok =
    omega
      (arith, length-drop (suc (length w) - window_size) (w ++ ok ∷ []), length-append w (ok ∷ []))

loss-probed :
    (rtt : ℕ) (ok : Bool) (now : ℕ) (p : Candidate)
    → (probed rtt ok now p).loss ≡ loss_of (probed rtt ok now p)
unfolding probed miss answer loss_of
loss-probed rtt true now p = refl
loss-probed rtt false now p = refl

-- What the loss of a window is: failures of results.
abbrev pub window_loss : List Bool → Loss
window_loss w = record { failed = length w - good w; probed = length w }

after_probes-window :
    (p : Candidate) (oks : List Bool) (result : ℕ × Bool × ℕ) (results : List (ℕ × Bool × ℕ))
    → Holds p (newest oks)
    → (after_probes p (result ∷ results)).loss
      ≡ window_loss (newest (oks ++ outcomes (result ∷ results)))
unfolding after_probes
after_probes-window p oks (rtt, ok, now) [] h =
    let w = slide (newest oks) ok in
    let held = probed-Holds rtt ok now p (newest oks) h in
    loss-probed rtt ok now p
    ∙ loss_of-Holds (probed rtt ok now p) w held (length-slide (newest oks) ok)
    ∙ ap window_loss (slide-newest oks ok)
after_probes-window p oks (rtt, ok, now) (result ∷ results) h =
    let held = probed-Holds rtt ok now p (newest oks) h in
    after_probes-window (probed rtt ok now p) (oks ++ ok ∷ []) result results
      (subst (Holds (probed rtt ok now p)) (slide-newest oks ok) held)
    ∙ ap (λ t. window_loss (newest t)) (append_assoc oks (ok ∷ []) (outcomes (result ∷ results)))

-- The ring of twenty results refines a window over all results: after any results for a new
-- candidate, its loss is the share of failures among the newest twenty.
pub after_probes_refines :
    (name : String) (kind : PathKind) (result : ℕ × Bool × ℕ) (results : List (ℕ × Bool × ℕ))
    → (after_probes (new_candidate name kind) (result ∷ results)).loss
      ≡ window_loss (newest (outcomes (result ∷ results)))
unfolding new_candidate replicate_false
after_probes_refines name kind result results =
    after_probes-window (new_candidate name kind) [] result results (
      inl (record {
        pad = replicate_false window_size;
        split = refl;
        short = refl;
        room = omega arith;
        at_next = refl;
        all_used = refl;
      }))
