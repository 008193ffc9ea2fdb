-- ===== src/Stats.antt =====
-- server/core/stats.go: the statistics of a connector. The lock of the holder makes each method
-- one step. An `int64` is given by its two's-complement pattern, and wraps.
pub mod Requests
use nats_replicator.Prelude.{ℕ, ◌^◌, ◌%◌, String, Bool, true, false, List, [], ◌∷◌}
use nats_replicator.Prelude.Int.{add64, sub64}
use nats_replicator.Prelude.Outcome.{Outcome, done, ◌>>=◌}
use nats_replicator.Float.{Float, whole}
use nats_replicator.Histogram
use nats_replicator.Histogram.{Histogram, new_histogram, quantile}

module _ ⦃fl : Float⦄ where
  pub record ConnectorStats : Type 0 where
    pub name : String
    pub id : String
    pub connected : Bool
    pub connects : ℕ
    pub disconnects : ℕ
    pub bytes_in : ℕ
    pub bytes_out : ℕ
    pub messages_in : ℕ
    pub messages_out : ℕ
    pub request_count : ℕ
    pub moving_average : fl.F
    pub quintile50 : fl.F
    pub quintile75 : fl.F
    pub quintile90 : fl.F
    pub quintile95 : fl.F

  pub record ConnectorStatsHolder : Type 0 where
    pub stats : ConnectorStats
    pub histogram : Histogram

  -- NewConnectorStatsHolder
  unfoldable pub new_connector_stats_holder : String → String → ConnectorStatsHolder
  unfolding new_histogram
  new_connector_stats_holder name id = record {
    stats = record {
      name = name;
      id = id;
      connected = false;
      connects = 0;
      disconnects = 0;
      bytes_in = 0;
      bytes_out = 0;
      messages_in = 0;
      messages_out = 0;
      request_count = 0;
      moving_average = whole 0;
      quintile50 = whole 0;
      quintile75 = whole 0;
      quintile90 = whole 0;
      quintile95 = whole 0;
    };
    histogram = new_histogram 60;
  }

  -- AddMessageIn
  unfoldable pub add_message_in : ConnectorStatsHolder → ℕ → ConnectorStatsHolder
  add_message_in h bytes =
      let s = h.stats in
      record h {
        stats = record s { messages_in = add64 s.messages_in 1; bytes_in = add64 s.bytes_in bytes };
      }

  -- AddMessageOut
  unfoldable pub add_message_out : ConnectorStatsHolder → ℕ → ConnectorStatsHolder
  add_message_out h bytes =
      let s = h.stats in
      record h {
        stats = record s {
          messages_out = add64 s.messages_out 1;
          bytes_out = add64 s.bytes_out bytes;
        };
      }

  -- AddDisconnect
  unfoldable pub add_disconnect : ConnectorStatsHolder → ConnectorStatsHolder
  add_disconnect h =
      let s = h.stats in
      record h { stats = record s { disconnects = add64 s.disconnects 1; connected = false } }

  -- AddConnect
  unfoldable pub add_connect : ConnectorStatsHolder → ConnectorStatsHolder
  add_connect h =
      let s = h.stats in
      record h { stats = record s { connects = add64 s.connects 1; connected = true } }

  -- ((float64(count-1) * average) + reqns) / float64(count), for the count after the request.
  unfoldable pub next_average : ℕ → fl.F → fl.F → fl.F
  next_average count average reqns =
      fl.div (fl.add (fl.mul (fl.of_int64 (sub64 count 1)) average) reqns) (fl.of_int64 count)

  -- AddRequestTime, of a request that took `req_time` nanoseconds.
  unfoldable pub add_request_time : ConnectorStatsHolder → ℕ → Outcome ConnectorStatsHolder
  unfolding next_average
  add_request_time h req_time =
      let s = h.stats in
      let reqns = fl.of_int64 req_time in
      let count = add64 s.request_count 1 in
      Histogram.add h.histogram reqns >>= λ histogram. done (record {
        stats = record s {
          request_count = count;
          moving_average = next_average count s.moving_average reqns;
        };
        histogram = histogram;
      })

  -- AddRequest
  unfoldable pub add_request : ConnectorStatsHolder → ℕ → ℕ → ℕ → Outcome ConnectorStatsHolder
  unfolding next_average
  add_request h bytes_in bytes_out req_time =
      let s = h.stats in
      let reqns = fl.of_int64 req_time in
      let count = add64 s.request_count 1 in
      Histogram.add h.histogram reqns >>= λ histogram. done (record {
        stats = record s {
          messages_in = add64 s.messages_in 1;
          bytes_in = add64 s.bytes_in bytes_in;
          messages_out = add64 s.messages_out 1;
          bytes_out = add64 s.bytes_out bytes_out;
          request_count = count;
          moving_average = next_average count s.moving_average reqns;
        };
        histogram = histogram;
      })

  -- Stats: updates the quantiles in place, and returns a copy.
  unfoldable pub stats : ConnectorStatsHolder → ConnectorStatsHolder × ConnectorStats
  stats h =
      let s = record h.stats {
        quintile50 = quantile h.histogram (fl.decimal 5 1);
        quintile75 = quantile h.histogram (fl.decimal 75 2);
        quintile90 = quantile h.histogram (fl.decimal 9 1);
        quintile95 = quantile h.histogram (fl.decimal 95 2);
      } in
      (record h { stats = s }, s)
