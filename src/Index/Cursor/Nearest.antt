-- ===== src/Index/Cursor/Nearest.antt =====
-- index.rs: the entry that a cursor seeks is the nearest one, from either end of the map.
use mathlib.Core.Path.{subst}
use mathlib.Core.List.{reverse}
use block_rust.Base.{◌≡◌, sym, ◌∙◌, ap, Bool, true, Option, none, some, not}
use block_rust.Base.Ord.{bytes_ord}
use block_rust.OrdMap.{OrdMap}
use block_rust.Types.{Key, Address, Commit}
use block_rust.Index.Defs.{Node, IndexState, key_true_value}
use block_rust.Index.Links.Splice.{IsAscending, Linked}
use block_rust.Index.Cursor.{
  Cursor, first_within_commit_limit, seek_first, seek_last, seek_key, seek_key_rev,
}
use block_rust.Index.Cursor.Listing.{get-live_entries, get-live_entries-value}
use block_rust.Index.Cursor.Within.{
  look, Nearest, range_from-keep, range_to-keep, all-keep, first-Nearest, last-Nearest,
}

module _ (state : IndexState) (limit : Commit) (l : Linked none state.keymap)
    (a : IsAscending state.keymap) where
  look-key_true_value : (k : Key) → look state limit state.keymap k ≡ key_true_value state limit k
  look-key_true_value k =
      sym (get-live_entries-value state limit k state.keymap a) ∙ get-live_entries state limit k l a

  Nearest-key_true_value :
      (better : Key → Key → Bool) (within : Key → Bool) (x : Option (Key × Address))
      → Nearest better within (look state limit state.keymap) x
      → Nearest better within (key_true_value state limit) x
  Nearest-key_true_value better within none h = λ k p. sym (look-key_true_value k) ∙ h k p
  Nearest-key_true_value better within (some (k, addr)) h =
      (h.0, sym (look-key_true_value k) ∙ h.1, λ k' p q. sym (look-key_true_value k') ∙ h.2 k' p q)

abbrev pub smaller : Key → Key → Bool
smaller a b = bytes_ord.lt a b

abbrev pub larger : Key → Key → Bool
larger a b = bytes_ord.lt b a

abbrev pub any_key : Key → Bool
any_key j = true

-- `j >= k` and `j <= k`.
abbrev pub from_key : Key → Key → Bool
from_key k j = not (bytes_ord.lt j k)

abbrev pub to_key : Key → Key → Bool
to_key k j = not (bytes_ord.lt k j)

module _ (state : IndexState) (l : Linked none state.keymap) (a : IsAscending state.keymap)
    (c : Cursor) where
  from_list :
      (better : Key → Key → Bool) (within : Key → Bool) (m m' : OrdMap Key Node)
      → m' ≡ m
      → Nearest better within
          (look state c.commit_limit state.keymap)
          (first_within_commit_limit state c.commit_limit m)
      → Nearest better within
          (key_true_value state c.commit_limit)
          (first_within_commit_limit state c.commit_limit m')
  from_list better within m m' e h =
      Nearest-key_true_value state c.commit_limit l a better within _ (
        subst
          (λ x.
            Nearest better within (look state c.commit_limit state.keymap)
              (first_within_commit_limit state c.commit_limit x))
          (sym e) h)

  pub seek_first-Nearest :
      Nearest smaller any_key (key_true_value state c.commit_limit) (seek_first state c).current
  unfolding seek_first
  seek_first-Nearest =
      from_list smaller any_key _ _ (all-keep state.keymap)
        (first-Nearest state c.commit_limit any_key state.keymap a)

  pub seek_last-Nearest :
      Nearest larger any_key (key_true_value state c.commit_limit) (seek_last state c).current
  unfolding seek_last
  seek_last-Nearest =
      from_list larger any_key _ _ (ap reverse (all-keep state.keymap))
        (last-Nearest state c.commit_limit any_key state.keymap a)

  pub seek_key-Nearest :
      (k : Key)
      → Nearest smaller
          (from_key k)
          (key_true_value state c.commit_limit)
          (seek_key state k c).current
  unfolding seek_key
  seek_key-Nearest k =
      from_list smaller (from_key k) _ _ (range_from-keep k state.keymap)
        (first-Nearest state c.commit_limit (from_key k) state.keymap a)

  pub seek_key_rev-Nearest :
      (k : Key)
      → Nearest larger
          (to_key k)
          (key_true_value state c.commit_limit)
          (seek_key_rev state k c).current
  unfolding seek_key_rev
  seek_key_rev-Nearest k =
      from_list larger (to_key k) _ _ (ap reverse (range_to-keep k state.keymap))
        (last-Nearest state c.commit_limit (to_key k) state.keymap a)
