-- ===== src/Simulator/EdgeNode/Session.antt =====
-- The messages of an edge node follow the Sparkplug rules, whatever the order of its threads.
use digital_twin.Prelude.{
  ℕ, ◌+◌, ◌%◌, String, Bool, true, false, Option, none, some, List, [], ◌∷◌, ◌++◌, ◌≡◌, sym, ==_iff,
  if_ind, refl, arith, ap, ◌∙◌,
}
use digital_twin.Simulator.EdgeNode.{
  Reading, Metric, Message, nbirth, ndeath, dbirth, ddata, Node, MetricDef, has, lookup, keys,
  new_node, add_device, next_seq, remember, birth_with, publish_dbirth, data_with, publish_locked,
  publish_births, rebirth, on_connect, on_disconnect, on_message, build_metrics,
}
use digital_twin.Simulator.EdgeNode.Traffic.{
  Host, waiting, following, hear, hear_if, hear_all, hear_all-append, self_eq, has-cons, Action,
  adding, connected, disconnected, asked, in_session, in_session_after, reading, publishing,
  publish_will, step, run,
}

-- What a host knows of a node: it waits only outside a session; otherwise it is at the node's number
-- and bdSeq, and knows each born device.
pub Tracks : {V : Type 0} → Host → Bool → Node V → Type 0
Tracks waiting b n = b ≡ false
Tracks (following alive seq bd) b n =
    (seq ≡ n.seq) × (bd ≡ n.bd_seq) × ((d : String) → has d n.born ≡ true → has d alive ≡ true)

-- The host broke no rule and tracks the node.
record Follows {V : Type 0} (b : Bool) (n : Node V) : Type 0 where
  host : Host
  heard : hear_all (some waiting) n.wire ≡ some host
  tracks : Tracks host b n
  will : n.will ≡ n.bd_seq

module _ {V : Type 0} where
  new_node-Follows : Follows {V = V} false new_node
  unfolding hear_all new_node Tracks
  new_node-Follows = record { host = waiting; heard = refl; tracks = refl; will = refl }

  heard_next :
      (b : Bool) (n : Node V) (f : Follows b n) (m : Message V) (h : Host)
      → hear m f.host ≡ some h
      → hear_all (some waiting) (n.wire ++ m ∷ []) ≡ some h
  unfolding hear_if
  heard_next b n f m h e = hear_all-append _ n.wire m ∙ ap (λ o. hear_if o m) f.heard ∙ e

  -- the host after a message of a device
  Hears : Bool → Message V → Host → Node V → Type 0
  Hears b m h n' = (h' : Host) × (hear m h ≡ some h') × Tracks h' b n'

  -- a birth of the device
  born_node : String → List (Metric V) → Node V → Node V
  born_node device ms n = record n {
    seq = next_seq n.seq;
    wire = n.wire ++ dbirth device ms (next_seq n.seq) ∷ [];
    born = device ∷ n.born;
  }

  hear_dbirth :
      (b : Bool) (device : String) (ms : List (Metric V)) (h : Host) (n : Node V)
      → Tracks h b n
      → Hears b (dbirth device ms (next_seq n.seq)) h (born_node device ms n)
  unfolding hear next_seq Tracks Hears born_node
  hear_dbirth b device ms waiting n t = (waiting, refl, t)
  hear_dbirth b device ms (following alive seq bd) n (s, d, k) = (
    following (device ∷ alive) (next_seq n.seq) bd,
    rw (s, self_eq ((n.seq + 1) % 256)) refl,
    (refl, d, λ x h. has-cons device x n.born alive (k x) h),
  )

  -- data of the device
  data_node : String → List (Metric V) → Node V → Node V
  data_node device ms n = record n {
    seq = next_seq n.seq;
    wire = n.wire ++ ddata device ms (next_seq n.seq) ∷ [];
  }

  hear_ddata :
      (b : Bool) (device : String) (ms : List (Metric V)) (h : Host) (n : Node V)
      → has device n.born ≡ true
      → Tracks h b n
      → Hears b (ddata device ms (next_seq n.seq)) h (data_node device ms n)
  unfolding hear next_seq Tracks Hears data_node
  hear_ddata b device ms waiting n k t = (waiting, refl, t)
  hear_ddata b device ms (following alive seq bd) n k (s, d, known) = (
    following alive (next_seq n.seq) bd,
    rw (s, self_eq ((n.seq + 1) % 256), known device k) refl,
    (refl, d, known),
  )

  born-Follows :
      (b : Bool) (device : String) (ms : List (Metric V)) (n : Node V)
      → Follows b n
      → Follows b (born_node device ms n)
  unfolding Hears born_node
  born-Follows b device ms n f =
      let (h, e, t) = hear_dbirth b device ms f.host n f.tracks in
      record { host = h; heard = heard_next b n f _ h e; tracks = t; will = f.will }

  data-Follows :
      (b : Bool) (device : String) (ms : List (Metric V)) (n : Node V)
      → has device n.born ≡ true
      → Follows b n
      → Follows b (data_node device ms n)
  unfolding Hears data_node
  data-Follows b device ms n k f =
      let (h, e, t) = hear_ddata b device ms f.host n k f.tracks in
      record { host = h; heard = heard_next b n f _ h e; tracks = t; will = f.will }

  -- a change of the node that the host does not see
  unseen :
      (b : Bool) (n n' : Node V)
      → n'.wire ≡ n.wire
      → n'.seq ≡ n.seq
      → n'.bd_seq ≡ n.bd_seq
      → n'.will ≡ n.will
      → n'.born ≡ n.born
      → Follows b n
      → Follows b n'
  unfolding Tracks
  unseen b n n' w s d l k f = record {
    host = f.host;
    heard = ap (hear_all (some waiting)) w ∙ f.heard;
    tracks = same f.host f.tracks;
    will = l ∙ f.will ∙ sym d;
  }
    where
      same : (h : Host) → Tracks h b n → Tracks h b n'
      same waiting t = t
      same (following alive seq bd) (x, y, z) =
          (x ∙ sym s, y ∙ sym d, λ e h. z e (ap (has e) (sym k) ∙ h))

  -- the end of a session
  lost-Follows :
      (b : Bool) (n : Node V) → Follows b n → Follows false (on_disconnect (publish_will n))
  unfolding on_disconnect publish_will hear Tracks
  lost-Follows b n f = record {
    host = waiting;
    heard = heard_next b n f (ndeath n.will) waiting (dies f.host f.tracks);
    tracks = refl;
    will = refl;
  }
    where
      dies : (h : Host) → Tracks h b n → hear {V = V} (ndeath n.will) h ≡ some waiting
      dies waiting t = refl
      dies (following alive seq bd) (x, y, z) = rw ((==_iff n.will bd).1 (f.will ∙ sym y)) refl

module _ {V : Type 0} (encodes : List (Metric V) → Bool)
    (can_encode : (ms : List (Metric V)) → encodes ms ≡ true) where
  birth_with-Follows :
      (b : Bool) (device : String) (now : ℕ) (ds : Option (List MetricDef)) (r : Option (Reading V))
      (n : Node V)
      → Follows b n
      → Follows b (birth_with encodes device now ds r n).0
  unfolding birth_with born_node
  birth_with-Follows b device now (some ds) (some r) n f =
      if_ind (λ (x : Node V × Bool). Follows b x.0) (encodes (build_metrics ds r now true)) _ _
        (λ t. born-Follows b device (build_metrics ds r now true) n f)
        (λ t. absurd (ground (arith, t, can_encode (build_metrics ds r now true))))
  birth_with-Follows b device now (some ds) none n f = f
  birth_with-Follows b device now none r n f = f

  publish_dbirth-Follows :
      (b : Bool) (device : String) (now : ℕ) (n : Node V)
      → Follows b n
      → Follows b (publish_dbirth encodes device now n).0
  unfolding publish_dbirth
  publish_dbirth-Follows b device now n f = birth_with-Follows b device now _ _ n f

  data_with-Follows :
      (b : Bool) (device : String) (r : Reading V) (now : ℕ) (ds : Option (List MetricDef))
      (n : Node V)
      → has device n.born ≡ true
      → Follows b n
      → Follows b (data_with encodes device r now ds n)
  unfolding data_with data_node
  data_with-Follows b device r now none n k f = f
  data_with-Follows b device r now (some ds) n k f =
      if_ind (Follows b) (encodes (build_metrics ds r now false)) _ _
        (λ t. data-Follows b device (build_metrics ds r now false) n k f)
        (λ t. absurd (ground (arith, t, can_encode (build_metrics ds r now false))))

  publish_locked-Follows :
      (b : Bool) (device : String) (r : Reading V) (now : ℕ) (n : Node V)
      → Follows b n
      → Follows b (publish_locked encodes device r now n)
  unfolding publish_locked
  publish_locked-Follows b device r now n f =
      if_ind (Follows b) (has device n.born) _ _
        (λ k. data_with-Follows b device r now (lookup device n.defs) n k f)
        (λ k. publish_dbirth-Follows b device now n f)

  births-Follows :
      (b : Bool) (ds : List String) (now : ℕ) (n : Node V)
      → Follows b n
      → Follows b (publish_births encodes ds now n)
  unfolding publish_births
  births-Follows b [] now n f = f
  births-Follows b (d ∷ ds) now n f =
      let g = publish_dbirth-Follows b d now n f in
      if_ind (Follows b) (publish_dbirth encodes d now n).1 _ _
        (λ t. births-Follows b ds now (publish_dbirth encodes d now n).0 g) (λ t. g)

  rebirth-Follows :
      (b : Bool) (now : ℕ) (n : Node V) → Follows b n → Follows true (rebirth encodes now n)
  unfolding rebirth hear Tracks
  rebirth-Follows b now n f = births-Follows true (keys n.last) now _ (record {
    host = following [] 0 n.bd_seq;
    heard = heard_next b n f (nbirth n.bd_seq) _ refl;
    tracks = (refl, refl, λ d h. h);
    will = f.will;
  })

  step-Follows :
      (b : Bool) (a : Action V) (now : ℕ) (n : Node V)
      → Follows b n
      → Follows (in_session a b) (step encodes (a, now) n)
  unfolding step in_session add_device remember on_connect on_message
  step-Follows b (adding device ds) now n f = unseen b n _ refl refl refl refl refl f
  step-Follows b (reading device r) now n f = unseen b n _ refl refl refl refl refl f
  step-Follows b (publishing device r) now n f = publish_locked-Follows b device r now n f
  step-Follows b (connected true) now n f = f
  step-Follows b (connected false) now n f = rebirth-Follows b now n f
  step-Follows b disconnected now n f = lost-Follows b n f
  step-Follows b (asked true) now n f = rebirth-Follows b now n f
  step-Follows b (asked false) now n f = f

  run-Follows :
      (b : Bool) (l : List (Action V × ℕ)) (n : Node V)
      → Follows b n
      → Follows (in_session_after l b) (run encodes l n)
  unfolding run in_session_after
  run-Follows b [] n f = f
  run-Follows b ((a, now) ∷ l) n f =
      run-Follows (in_session a b) l (step encodes (a, now) n) (step-Follows b a now n f)

  -- Whatever the threads of a new node do, with any devices, readings and outcomes of connections, and
  -- with metrics that can all be encoded: a host that ignores what comes before the NBIRTH of a
  -- session, and follows the Sparkplug rules from there on, accepts all messages in order. So from an
  -- NBIRTH on each sequence number follows the last one modulo 256, beginning with the NBIRTH's 0, data
  -- of a device come only after a DBIRTH of it, and the NDEATH that ends the session has the NBIRTH's
  -- bdSeq. In a session the host ends at the node's number and bdSeq and knows all devices that the
  -- node takes as born, and the bdSeq in the will is the one of the node.
  pub messages_follow_the_rules :
      (l : List (Action V × ℕ))
      → (h : Host) × (hear_all (some waiting) (run encodes l new_node).wire ≡ some h)
        × Tracks h (in_session_after l false) (run encodes l new_node)
        × ((run encodes l new_node).will ≡ (run encodes l new_node).bd_seq)
  messages_follow_the_rules l =
      let f = run-Follows false l new_node new_node-Follows in (f.host, f.heard, f.tracks, f.will)
