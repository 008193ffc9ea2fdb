-- ===== src/Delivery/Published/Tally.antt =====
-- What the callbacks of server/core/nats2stan.go have published and counted, in every state that
-- messages and answers reach.
use mathlib.Core.List.{append-nil}
use mathlib.Core.Path.{ap₂}
use nats_replicator.Prelude.{
  ℕ, ◌+◌, ◌≤◌, String, ◌≡◌, refl, sym, ap, subst, ◌∙◌, Option, none, some, List, [], ◌∷◌, ◌++◌, All,
  arith, length, length-append,
}
use nats_replicator.Prelude.Outcome.{done, done-injective}
use nats_replicator.Float.{Float, FloatLaws, exact_limit}
use nats_replicator.Result.{Error}
use nats_replicator.Conf.{ConnectorConfig}
use nats_replicator.Client.{Message, publish_async}
use nats_replicator.Stats.{ConnectorStatsHolder, new_connector_stats_holder}
use nats_replicator.Stats.Requests.{
  All-append, apply_all-append, Report, apply, apply_all, count_all, no_reports, Shows, IsTimed,
  apply_all-Shows,
}
use nats_replicator.Connector.{Connector, Handled}
use nats_replicator.Connector.NatsToStan.{on_message, on_ack}
use nats_replicator.Delivery.Published.{
  Flow, report_for, publications, idle, Step, receives, settles, Reach, here, next, apply_all-snoc,
  on_message-apply, on_message_lem, on_ack-apply, on_ack_ends,
}

module _ ⦃fl : Float⦄ (laws : FloatLaws ⦃fl = fl⦄) (conn₀ : Connector) (target : ℕ) where
  -- The statistics are those of the reports; each message that came in is in flight or reported,
  -- and was published once, in order.
  record Tallied (f : Flow) : Type 0 where
    config : f.connector.config ≡ conn₀.config
    applied : apply_all conn₀.stats f.reports ≡ done f.connector.stats
    timed : All (IsTimed laws) f.reports
    counted : length f.reports + length f.in_flight ≡ length f.received
    published : f.effects ≡ publications conn₀.config.outgoing_channel target f.received

  All-snoc :
      (rs : List Report) (r : Report)
      → All (IsTimed laws) rs
      → IsTimed laws r
      → All (IsTimed laws) (rs ++ r ∷ [])
  All-snoc [] r a b = (b, tt)
  All-snoc (q ∷ rs) r (h, a) b = (h, All-snoc rs r a b)

  publications-snoc :
      (channel : String) (ms : List Message) (m : Message)
      → publications channel target ms ++ publish_async target channel m.payload ∷ []
        ≡ publications channel target (ms ++ m ∷ [])
  publications-snoc channel [] m = refl
  publications-snoc channel (n ∷ ms) m =
      ap (λ es. publish_async target channel n.payload ∷ es) (publications-snoc channel ms m)

  received-published :
      (f : Flow) (msg : Message) (answer : Option Error)
      → Tallied f
      → f.effects ++ (on_message f.connector target msg answer).effects
        ≡ publications conn₀.config.outgoing_channel target (f.received ++ msg ∷ [])
  received-published f msg answer t =
      let (e, _) = on_message_lem f.connector target msg answer in
      ap₂ (λ es fs. es ++ fs) t.published
        (e
          ∙ ap (λ (c : ConnectorConfig). publish_async target c.outgoing_channel msg.payload ∷ [])
              t.config)
      ∙ publications-snoc conn₀.config.outgoing_channel f.received msg

  Step-Tallied : {f g : Flow} → Step laws target f g → Tallied f → Tallied g
  unfolding on_message
  Step-Tallied {f} (receives msg none) t = record {
    config = t.config;
    applied = t.applied;
    timed = t.timed;
    counted = omega (arith, t.counted, length-append f.received (msg ∷ []));
    published = received-published f msg none t;
  }
  Step-Tallied {f} (receives msg (some e)) t =
      let r = report_for (some e) msg 0 in
      record {
        config = t.config;
        applied =
            apply_all-snoc conn₀.stats f.connector.stats f.reports r t.applied
            ∙ on_message-apply f.connector target msg e;
        timed = All-snoc f.reports r t.timed tt;
        counted = omega (
          arith,
          t.counted,
          length-append f.received (msg ∷ []),
          length-append f.reports (r ∷ []),
        );
        published = received-published f msg (some e) t;
      }
  Step-Tallied {f} (settles before after msg answer elapsed h e ns p) t =
      let r = report_for answer msg elapsed in
      let (q, es, c) = on_ack-apply f.connector msg answer elapsed h p in
      record {
        config = c ∙ t.config;
        applied = apply_all-snoc conn₀.stats f.connector.stats f.reports r t.applied ∙ q;
        timed = All-snoc f.reports r t.timed ns;
        counted = omega (
          arith,
          t.counted,
          ap length e,
          length-append f.reports (r ∷ []),
          length-append before (msg ∷ after),
          length-append before after,
        );
        published = ap (λ fs. f.effects ++ fs) es ∙ append-nil f.effects ∙ t.published;
      }

  Reach-Tallied : {f : Flow} → Reach laws target (idle conn₀) f → Tallied f
  unfolding apply_all
  Reach-Tallied here = record {
    config = refl;
    applied = refl;
    timed = tt;
    counted = omega arith;
    published = refl;
  }
  Reach-Tallied (next r st) = Step-Tallied st (Reach-Tallied r)

  -- For a connector from NATS to streaming whose statistics are those of what it has reported
  -- since it was created, of the opened subscription and what came after it, in any state that
  -- messages and answers in any order reach, with at most 2^53 of these reports and messages
  -- together: the ack handler of any message in flight, with a time that the histogram takes,
  -- ends; after it the statistics show the tally of all reports, every message that came in is in
  -- flight or was reported once, and each was published once, in order.
  pub Reach-settles :
      (name id : String) (earlier : List Report) (f : Flow) (before after : List Message)
      (msg : Message) (answer : Option Error) (elapsed : ℕ)
      → apply_all (new_connector_stats_holder name id) earlier ≡ done conn₀.stats
      → All (IsTimed laws) earlier
      → Reach laws target (idle conn₀) f
      → f.in_flight ≡ before ++ msg ∷ after
      → IsTimed laws (report_for answer msg elapsed)
      → length earlier + length f.received ≤ exact_limit
      → (h : Handled) × (on_ack f.connector msg answer elapsed ≡ done h)
        × Shows h.connector.stats
            (count_all no_reports (earlier ++ (f.reports ++ report_for answer msg elapsed ∷ [])))
        × (length (f.reports ++ report_for answer msg elapsed ∷ []) + length (before ++ after)
            ≡ length f.received)
        × (f.effects ++ h.effects ≡ publications conn₀.config.outgoing_channel target f.received)
  Reach-settles name id earlier f before after msg answer elapsed was timed reached e ns lim =
      let t = Reach-Tallied reached in
      let r = report_for answer msg elapsed in
      let rs = f.reports ++ r ∷ [] in
      let few : length (earlier ++ rs) ≤ exact_limit = omega (
        arith,
        t.counted,
        lim,
        ap length e,
        length-append f.reports (r ∷ []),
        length-append before (msg ∷ after),
        length-append earlier rs,
      ) in
      let (st, a, shows) =
        apply_all-Shows laws name id (earlier ++ rs)
          (All-append (IsTimed laws) earlier rs timed (All-snoc f.reports r t.timed ns)) few in
      let all : apply_all conn₀.stats rs ≡ done st =
        sym (apply_all-append (new_connector_stats_holder name id) conn₀.stats earlier rs was)
        ∙ a in
      let one : apply f.connector.stats r ≡ done st =
        sym (apply_all-snoc conn₀.stats f.connector.stats f.reports r t.applied) ∙ all in
      let (h, p) = on_ack_ends f.connector msg answer elapsed st one in
      let (q, _, _) = on_ack-apply f.connector msg answer elapsed h p in
      let t' = Step-Tallied (settles before after msg answer elapsed h e ns p) t in
      (
        h,
        p,
        subst (λ (s : ConnectorStatsHolder). Shows s (count_all no_reports (earlier ++ rs)))
            (done-injective (sym one ∙ q)) shows,
        t'.counted,
        t'.published,
      )
