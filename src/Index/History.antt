-- ===== src/Index/History.antt =====
-- The writes of a commit keep the index in step with a history of events.
use block_rust.Base.{
  ◌+◌, ◌≤◌, ◌≡◌, ◌&&◌, some, List, [], ◌∷◌, arith, ltb, if◌then◌else◌, rfind-append,
}
use block_rust.Base.Ord.{bytes_ord}
use block_rust.OrdMap.{OrdMap}
use block_rust.Types.{Key, Address, Commit}
use block_rust.BatchPlayer.{IndexOp, write, delete, delete_range}
use block_rust.Index.Defs.{
  BatchIdx, written, deleted, Entry, Node, RangeDelete, IndexState, point_query, range_delete_query,
  key_true_value, range_contains,
}
use block_rust.Index.Writer.{Writer, push_range_delete}
use block_rust.Index.Points.{history_of, point_query-history, Appends}
use block_rust.Index.Events.{
  Event, view, last_point, last_range, AllBefore, IsOrdered, true_value-view,
}

-- The queries of the state find the latest events.
pub record Represents (st : IndexState) (es : List Event) : Type 0 where
  pub points : (limit : Commit) (key : Key) → point_query st limit key ≡ last_point limit es key
  pub ranges :
      (limit : Commit) (key : Key) → range_delete_query st limit key ≡ last_range limit es key
  pub ordered : IsOrdered es

-- What `read` returns is the map of the writes below the limit.
pub key_true_value-view :
    (st : IndexState) (es : List Event) (limit : Commit) (key : Key)
    → Represents st es
    → key_true_value st limit key ≡ view limit es key
unfolding key_true_value
key_true_value-view st es limit key r =
    ground (arith, r.points limit key, r.ranges limit key, true_value-view limit es key r.ordered)

-- The event of the next write of `w`.
abbrev pub event : Writer → IndexOp → Event
event w op = record { commit = w.commit; batch_idx = w.batch_index; op = op }

-- The state of a writer, with the events that it stands for and those still to come.
pub record IsWriting (w : Writer) (es : List Event) : Type 0 where
  pub represents : Represents w.state es
  pub before : AllBefore es w.commit w.batch_index

pub AllBefore-mono :
    (es : List Event) (c : Commit) (i j : BatchIdx) → i ≤ j → AllBefore es c i → AllBefore es c j
AllBefore-mono [] c i j h b = tt
AllBefore-mono (e ∷ es) c i j h b = (ground arith, AllBefore-mono es c i j h b.1)

point_query-append :
    (st : IndexState) (m : OrdMap Key Node) (key : Key) (e : Entry) (limit : Commit) (k : Key)
    → Appends key e st.keymap m
    → point_query (record st { keymap = m }) limit k ≡ (
        if bytes_ord.eq key k
        then (if ltb e.commit limit then some e else point_query st limit k)
        else point_query st limit k)
point_query-append st m key e limit k a = ground (
  arith,
  a k,
  point_query-history st limit k,
  point_query-history (record st { keymap = m }) limit k,
  rfind-append (λ (e : Entry). ltb e.commit limit) (history_of k st.keymap) e,
)

-- The writer after its next position is taken.
abbrev pub advanced : Writer → IndexState → Writer
advanced w st = record w { state = st; batch_index = w.batch_index + 1 }

module _ {w : Writer} {es : List Event} (h : IsWriting w es) where
  pub write-IsWriting :
      (key : Key) (addr : Address) (m : OrdMap Key Node)
      → Appends key
          (record { commit = w.commit; value = written addr; batch_idx = w.batch_index })
          w.state.keymap
          m
      → IsWriting (advanced w (record w.state { keymap = m })) (event w (write key addr) ∷ es)
  unfolding last_point last_range range_delete_query
  write-IsWriting key addr m a = record {
    represents = record {
      points = λ limit k. ground (
        arith,
        h.represents.points limit k,
        point_query-append w.state m key
            (record { commit = w.commit; value = written addr; batch_idx = w.batch_index }) limit k
            a,
      );
      ranges = λ limit k. ground (arith, h.represents.ranges limit k);
      ordered = (h.before, h.represents.ordered);
    };
    before = (
      ground arith,
      AllBefore-mono es w.commit w.batch_index (w.batch_index + 1) (omega arith) h.before,
    );
  }

  pub delete-IsWriting :
      (key : Key) (addr : Address) (m : OrdMap Key Node)
      → Appends key
          (record { commit = w.commit; value = deleted addr; batch_idx = w.batch_index })
          w.state.keymap
          m
      → IsWriting (advanced w (record w.state { keymap = m })) (event w (delete key addr) ∷ es)
  unfolding last_point last_range range_delete_query
  delete-IsWriting key addr m a = record {
    represents = record {
      points = λ limit k. ground (
        arith,
        h.represents.points limit k,
        point_query-append w.state m key
            (record { commit = w.commit; value = deleted addr; batch_idx = w.batch_index }) limit k
            a,
      );
      ranges = λ limit k. ground (arith, h.represents.ranges limit k);
      ordered = (h.before, h.represents.ordered);
    };
    before = (
      ground arith,
      AllBefore-mono es w.commit w.batch_index (w.batch_index + 1) (omega arith) h.before,
    );
  }

  pub delete_range-IsWriting :
      (start end : Key) (addr : Address)
      → IsWriting
          (record (push_range_delete start end w.batch_index w) { batch_index = w.batch_index + 1 })
          (event w (delete_range start end addr) ∷ es)
  unfolding last_point last_range range_delete_query point_query
  delete_range-IsWriting start end addr = record {
    represents = record {
      points = λ limit k. ground (arith, h.represents.points limit k);
      ranges = λ limit k. ground (
        arith,
        h.represents.ranges limit k,
        rfind-append (λ (r : RangeDelete). ltb r.commit limit && range_contains r.start r.end k)
            w.state.range_deletes
            (record { commit = w.commit; start = start; end = end; batch_idx = w.batch_index }),
      );
      ordered = (h.before, h.represents.ordered);
    };
    before = (
      ground arith,
      AllBefore-mono es w.commit w.batch_index (w.batch_index + 1) (omega arith) h.before,
    );
  }
