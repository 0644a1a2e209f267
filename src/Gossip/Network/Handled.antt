-- ===== src/Gossip/Network/Handled.antt =====
-- cmd/gossip/gossip/protocol.go run by several nodes: one handler's effect on the network.
use go_simple_protocol_runti.Common.{
  ℕ, ◌≡◌, refl, sym, ap, ◌∙◌, List, [], ◌∷◌, ◌++◌, Bool, true, false, ◌&&◌, ◌||◌, if◌then◌else◌,
  ◌==◌, nat_eq, nat_beq_iff, All, All-append, arith,
}
use go_simple_protocol_runti.Transport.Host.{Host, host_eq, host_beq_iff}
use go_simple_protocol_runti.Gossip.{Message, Protocol, is_seen, contains}
use go_simple_protocol_runti.Gossip.Network.{
  Packet, Network, packets, set_node, put_in_flight, is_coming, has_delivered, Spreads,
}

is_coming-append :
    (id : ℕ) (b : Host) (xs ys : List Packet)
    → is_coming id b (xs ++ ys) ≡ (is_coming id b xs || is_coming id b ys)
is_coming-append id b [] ys = refl
is_coming-append id b (x ∷ xs) ys = ground (arith, is_coming-append id b xs ys)

All-implies {ℓ κ μ} :
    {A : Type ℓ} {P : A → Type κ} {Q : A → Type μ} (xs : List A)
    → ((x : A) → P x → Q x)
    → All P xs
    → All Q xs
All-implies [] weaken h = tt
All-implies (x ∷ xs) weaken h = (weaken x h.0, All-implies xs weaken h.1)

-- What a handler of node `a` did with message `msg`, while `rest` stayed in flight.
pub record Handled (n : Network) (a : Host) (msg : Message) (p : Protocol) (rest : List Packet)
    : Type 0 where
  pub marks : (id : ℕ) → is_seen id p.seen ≡ (is_seen id (n.node a).seen || (msg.id == id))
  pub keeps_view : p.view ≡ (n.node a).view
  pub delivers : (id : ℕ) → has_delivered id p.delivered ≡ is_seen id p.seen
  pub stays : All (λ (x : Packet). is_seen x.msg.id (n.node x.sender).seen ≡ true) rest
  pub gone :
      (b : Host) (id : ℕ)
      → is_coming id b n.flight ≡ true
      → (is_coming id b rest || ((a == b) && (msg.id == id))) ≡ true
  pub sends : All (λ (x : Packet). (x.sender ≡ a) × (x.msg ≡ msg)) (packets a p.sent)
  pub forwards :
      (b : Host)
      → contains b (n.node a).view ≡ true
      → is_seen msg.id (n.node a).seen ≡ false
      → (is_coming msg.id b (packets a p.sent) || is_seen msg.id (n.node b).seen) ≡ true

read_node {ℓ} :
    {X : Type ℓ} (field : Protocol → X) (a b : Host) (q : Protocol) (node : Host → Protocol)
    → field (set_node a q node b) ≡ (if a == b then field q else field (node b))
read_node field a b q node = go (a == b)
  where
    go : (c : Bool) → field (if c then q else node b) ≡ (if c then field q else field (node b))
    go true = refl
    go false = refl

same_node {ℓ} :
    {X : Type ℓ} (field : Protocol → X) (a b : Host) (node : Host → Protocol)
    → (a == b) ≡ true
    → field (node a) ≡ field (node b)
same_node field a b node e = ap (λ (x : Host). field (node x)) ((host_beq_iff a b).0 e)

module _ (n : Network) (a : Host) (msg : Message) (p : Protocol) (rest : List Packet)
    (h : Handled n a msg p rest) where
  pub seen_after :
      (b : Host) (id : ℕ)
      → is_seen id (set_node a (record p { sent = [] }) n.node b).seen
        ≡ (is_seen id (n.node b).seen || ((a == b) && (msg.id == id)))
  seen_after b id =
      read_node (λ (q : Protocol). is_seen id q.seen) a b (record p { sent = [] }) n.node
      ∙ ground (arith, h.marks id, same_node (λ (q : Protocol). is_seen id q.seen) a b n.node)

  delivered_after :
      Spreads n
      → (b : Host) (id : ℕ)
      → has_delivered id (set_node a (record p { sent = [] }) n.node b).delivered
        ≡ is_seen id (set_node a (record p { sent = [] }) n.node b).seen
  delivered_after s b id =
      read_node (λ (q : Protocol). has_delivered id q.delivered) a b (record p { sent = [] }) n.node
      ∙ rw (read_node (λ (q : Protocol). is_seen id q.seen) a b (record p { sent = [] }) n.node)
          (ground (arith, h.delivers id, s.delivered_seen b id))

  pub view_after :
      (b : Host) → (set_node a (record p { sent = [] }) n.node b).view ≡ (n.node b).view
  view_after b =
      read_node (λ (q : Protocol). q.view) a b (record p { sent = [] }) n.node
      ∙ ground (arith, h.keeps_view, same_node (λ (q : Protocol). q.view) a b n.node)

  covered_after :
      Spreads n
      → (c b : Host) (id : ℕ) → (is_seen id (n.node c).seen || ((a == c) && (msg.id == id))) ≡ true
      → contains b (n.node c).view ≡ true
      → ((is_seen id (n.node b).seen || ((a == b) && (msg.id == id)))
          || (is_coming id b (packets a p.sent) || is_coming id b rest))
        ≡ true
  covered_after s c b id seen viewed =
      ground (
        arith,
        s.covered c b id,
        h.gone b id,
        h.forwards b,
        nat_beq_iff msg.id id,
        host_beq_iff a c,
      )

  pub put_in_flight-Spreads : Spreads n → Spreads (put_in_flight a p rest n)
  put_in_flight-Spreads s = record {
    sender_seen =
        All-append
          (λ (x : Packet).
            is_seen x.msg.id (set_node a (record p { sent = [] }) n.node x.sender).seen ≡ true)
          (packets a p.sent) rest
          (All-implies (packets a p.sent)
            (λ (x : Packet). λ from.
              seen_after x.sender x.msg.id
              ∙ ground (arith, host_beq_iff a x.sender, nat_beq_iff msg.id x.msg.id))
            h.sends)
          (All-implies rest (λ (x : Packet). λ old. seen_after x.sender x.msg.id ∙ ground arith)
            h.stays);
    covered = λ (c : Host). λ (b : Host). λ (id : ℕ). λ seen. λ viewed.
        rw (seen_after b id, is_coming-append id b (packets a p.sent) rest)
          (covered_after s c b id (sym (seen_after c id) ∙ seen)
            (sym (ap (contains b) (view_after c)) ∙ viewed));
    sent_empty = λ (b : Host).
        read_node (λ (q : Protocol). q.sent) a b (record p { sent = [] }) n.node
        ∙ ground (arith, s.sent_empty b);
    delivered_seen = delivered_after s;
  }
