-- ===== src/Transport/Session/Live/Thinned.antt =====
-- pkg/transport/session.go: a log of which some outputs were given up.
use go_simple_protocol_runti.Common.{
  ◌≡◌, refl, sym, ap, subst, List, [], ◌∷◌, ◌++◌, Bool, true, not, ◌&&◌, Bool-cases, inl, inr,
  arith,
}
use go_simple_protocol_runti.Transport.Session.{
  Output, event, deliver, connects, disconnects, sends, SessionLayer,
}
use go_simple_protocol_runti.Transport.Session.Framed.{over}
use go_simple_protocol_runti.Transport.Session.Live.{is_guarded, go_out}

-- An event or a message, which go to the user of the session layer.
abbrev pub IsUpward : Output → Type 0
IsUpward (event e) = Unit
IsUpward (deliver m) = Unit
IsUpward (connects h) = ⊥
IsUpward (disconnects h) = ⊥
IsUpward (sends m h) = ⊥

guarded-IsUpward : (o : Output) → is_guarded o ≡ true → IsUpward o
guarded-IsUpward (event e) g = tt
guarded-IsUpward (deliver m) g = tt
guarded-IsUpward (connects h) g = absurd cc
guarded-IsUpward (disconnects h) g = absurd cc
guarded-IsUpward (sends m h) g = absurd cc

-- The first log is the second one, in the same order, but that some events and messages may be left out, and
-- none if the context is not over.
pub data Thinned (over_now : Bool) : List Output → List Output → Type 0 where
  none_left : Thinned over_now [] []
  went :
      {o : Output} {xs ys : List Output}
      → Thinned over_now xs ys
      → Thinned over_now (o ∷ xs) (o ∷ ys)
  given_up :
      {o : Output} {xs ys : List Output}
      → over_now ≡ true
      → IsUpward o
      → Thinned over_now xs ys
      → Thinned over_now xs (o ∷ ys)

pub Thinned-self : (b : Bool) (xs : List Output) → Thinned b xs xs
Thinned-self b [] = none_left
Thinned-self b (x ∷ xs) = went (Thinned-self b xs)

Thinned-append :
    {b : Bool} {xs ys us vs : List Output}
    → Thinned b xs ys
    → Thinned b us vs
    → Thinned b (xs ++ us) (ys ++ vs)
Thinned-append none_left q = q
Thinned-append (went p) q = went (Thinned-append p q)
Thinned-append (given_up now own p) q = given_up now own (Thinned-append p q)

Thinned-trans :
    {b : Bool} {xs ys zs : List Output} → Thinned b ys zs → Thinned b xs ys → Thinned b xs zs
Thinned-trans none_left p = p
Thinned-trans (given_up now own q) p = given_up now own (Thinned-trans q p)
Thinned-trans (went q) (went p) = went (Thinned-trans q p)
Thinned-trans (went q) (given_up now own p) = given_up now own (Thinned-trans q p)

pub Thinned-later :
    {b c : Bool} {xs ys : List Output} → (b ≡ true → c ≡ true) → Thinned b xs ys → Thinned c xs ys
Thinned-later later none_left = none_left
Thinned-later later (went p) = went (Thinned-later later p)
Thinned-later later (given_up now own p) = given_up (later now) own (Thinned-later later p)

pub go_out-Thinned :
    (b : Bool) (wins : List Bool) (os : List Output) → Thinned b (go_out b wins os) os
unfolding go_out
go_out-Thinned b wins [] = none_left
go_out-Thinned b [] (o ∷ os) = went (go_out-Thinned b [] os)
go_out-Thinned b (w ∷ wins) (o ∷ os) = elim (Bool-cases (b && (is_guarded o && not w))) [
  | inl gives ↦
      rw (gives, go_out)
        (given_up (ground arith) (guarded-IsUpward o (ground arith)) (go_out-Thinned b wins os))
  | inr goes ↦ rw (goes, go_out) (went (go_out-Thinned b wins os))
]

-- The states agree in all but the log, and the first one's log is the second one's, thinned.
pub record Follows (b : Bool) (now whole : SessionLayer) : Type 0 where
  pub same : record now { log = whole.log } ≡ whole
  pub thinned : Thinned b now.log whole.log

pub Follows-self : (b : Bool) (s : SessionLayer) → Follows b s s
Follows-self b s = record { same = refl; thinned = Thinned-self b s.log }

-- What follows a run in which some outputs of a turn were given up follows the one in which none was.
pub Follows-over :
    (b : Bool) (z now w whole : SessionLayer) (kept fresh earlier : List Output)
    → w ≡ over (kept ++ earlier) z
    → whole ≡ over (fresh ++ earlier) z
    → Thinned b kept fresh
    → Follows b now w
    → Follows b now whole
Follows-over b z now w whole kept fresh earlier e e' thin f =
    let told : List Output = z.log ++ (fresh ++ earlier) in
    let g = subst (Follows b now) e f in
    subst (Follows b now) (sym e') (record {
      same = ap (λ (s : SessionLayer). record s { log = told }) g.same;
      thinned =
          Thinned-trans
            (Thinned-append (Thinned-self b z.log) (Thinned-append thin (Thinned-self b earlier)))
            g.thinned;
    })
