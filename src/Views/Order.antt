-- ===== src/Views/Order.antt =====
-- src/gui.c: `compare_event_items` as the order that ListView_SortItems is given.
use Prim.Native.Nat.{Ordering}
use trace_glass.Base.{
  ℕ, zero, suc, ◌≡◌, refl, ap, Bool, true, false, some, List, if◌then◌else◌, get_elem?, arith,
  Option-cases, inl, inr, ◌⊎◌, ◌≢◌,
}
use trace_glass.Events.{TraceGlassEvent, event_category_name}
use trace_glass.Times.{filetime_to_u64}
use trace_glass.Utils.{Text}
use trace_glass.Views.{
  GuiView, view_overview, view_processes, view_network, view_timeline, view_alerts, SortState,
  Desktop,
}
use trace_glass.Views.Sort.{
  negate, or_compare, severity_number, compare_numbers, compare_text, compare_event_times,
  compare_endpoints, compare_columns, compare_event_items,
}

pub compare_numbers-negate : (m n : ℕ) → compare_numbers n m ≡ negate (compare_numbers m n)
unfolding compare_numbers
compare_numbers-negate m n = ground arith

compare_numbers-eq : (m n : ℕ) → compare_numbers m n ≡ Ordering.eq → m ≡ n
unfolding compare_numbers
compare_numbers-eq m n e = ground arith

or_compare-negate :
    (p q p' q' : Ordering)
    → p' ≡ negate p
    → q' ≡ negate q
    → or_compare p' q' ≡ negate (or_compare p q)
or_compare-negate Ordering.lt q p' q' e f = rw e refl
or_compare-negate Ordering.eq q p' q' e f = rw (e, f) refl
or_compare-negate Ordering.gt q p' q' e f = rw e refl

or_compare-eq : (p q : Ordering) → or_compare p q ≡ Ordering.eq → q ≡ Ordering.eq
or_compare-eq Ordering.lt q e = absurd (ground (arith, e))
or_compare-eq Ordering.eq q e = e
or_compare-eq Ordering.gt q e = absurd (ground (arith, e))

module _ (d : Desktop)
    (mirror : (left right : Text)
      → d.compare_ordinal right left ≡ negate (d.compare_ordinal left right)) where
  compare_text-negate :
      (left right : Text) → compare_text d right left ≡ negate (compare_text d left right)
  unfolding compare_text
  compare_text-negate left right = mirror left right

  compare_event_times-negate :
      (l r : TraceGlassEvent) → compare_event_times d r l ≡ negate (compare_event_times d l r)
  unfolding compare_event_times
  compare_event_times-negate l r =
      let by_sequence = compare_numbers-negate l.sequence r.sequence in
      elim (Option-cases (d.to_filetime l.timestamp)) [
        | inl e ↦ elim (Option-cases (d.to_filetime r.timestamp)) [
          | inl f ↦ rw (compare_event_times, e, f) by_sequence
          | inr (v, f) ↦ rw (compare_event_times, e, f, e) by_sequence
        ]
        | inr (u, e) ↦ elim (Option-cases (d.to_filetime r.timestamp)) [
          | inl f ↦ rw (compare_event_times, e, f) by_sequence
          | inr (v, f) ↦
              rw (compare_event_times, e, f, e)
                (or_compare-negate _ _ _ _
                  (compare_numbers-negate (filetime_to_u64 u) (filetime_to_u64 v)) by_sequence)
        ]
      ]

  compare_endpoints-negate :
      (l r : TraceGlassEvent) (remote : Bool)
      → compare_endpoints d r l remote ≡ negate (compare_endpoints d l r remote)
  unfolding compare_endpoints
  compare_endpoints-negate l r true =
      or_compare-negate _ _ _ _ (compare_text-negate l.remote_address r.remote_address)
        (compare_numbers-negate l.remote_port r.remote_port)
  compare_endpoints-negate l r false =
      or_compare-negate _ _ _ _ (compare_text-negate l.local_address r.local_address)
        (compare_numbers-negate l.local_port r.local_port)

  compare_columns-negate :
      (view : GuiView) (column : ℕ) (l r : TraceGlassEvent)
      → compare_columns d view column r l ≡ negate (compare_columns d view column l r)
  unfolding compare_columns
  compare_columns-negate view_overview column l r = refl
  compare_columns-negate view_processes column l r = refl
  compare_columns-negate view_network zero l r = compare_event_times-negate l r
  compare_columns-negate view_network (suc zero) l r =
      compare_text-negate l.process_name r.process_name
  compare_columns-negate view_network (suc (suc zero)) l r =
      compare_numbers-negate l.process.pid r.process.pid
  compare_columns-negate view_network (suc (suc (suc zero))) l r =
      compare_text-negate l.protocol r.protocol
  compare_columns-negate view_network (suc (suc (suc (suc zero)))) l r =
      compare_endpoints-negate l r false
  compare_columns-negate view_network (suc (suc (suc (suc (suc zero))))) l r =
      compare_endpoints-negate l r true
  compare_columns-negate view_network (suc (suc (suc (suc (suc (suc zero)))))) l r =
      compare_text-negate l.network_state r.network_state
  compare_columns-negate view_network (suc (suc (suc (suc (suc (suc (suc column))))))) l r = refl
  compare_columns-negate view_timeline zero l r = compare_event_times-negate l r
  compare_columns-negate view_timeline (suc zero) l r =
      compare_text-negate (event_category_name l.type) (event_category_name r.type)
  compare_columns-negate view_timeline (suc (suc zero)) l r =
      compare_text-negate l.process_name r.process_name
  compare_columns-negate view_timeline (suc (suc (suc zero))) l r =
      compare_numbers-negate l.process.pid r.process.pid
  compare_columns-negate view_timeline (suc (suc (suc (suc zero)))) l r =
      compare_text-negate l.details r.details
  compare_columns-negate view_timeline (suc (suc (suc (suc (suc column))))) l r = refl
  compare_columns-negate view_alerts zero l r = compare_event_times-negate l r
  compare_columns-negate view_alerts (suc zero) l r =
      compare_numbers-negate (severity_number l.severity) (severity_number r.severity)
  compare_columns-negate view_alerts (suc (suc zero)) l r =
      compare_text-negate l.rule_name r.rule_name
  compare_columns-negate view_alerts (suc (suc (suc zero))) l r =
      compare_text-negate l.process_name r.process_name
  compare_columns-negate view_alerts (suc (suc (suc (suc zero)))) l r =
      compare_text-negate l.details r.details
  compare_columns-negate view_alerts (suc (suc (suc (suc (suc column))))) l r = refl

  -- The `int` behind the two tests of the indices.
  abbrev unsigned : SortState → TraceGlassEvent → TraceGlassEvent → Ordering
  unsigned sort left right =
      or_compare (compare_columns d sort.view sort.column left right)
        (compare_numbers left.sequence right.sequence)

  compare_event_items-eq :
      (events : List TraceGlassEvent) (sort : SortState) (i j : ℕ) (left right : TraceGlassEvent)
      → get_elem? events i ≡ some left
      → get_elem? events j ≡ some right
      → compare_event_items d events sort i j
        ≡ (if sort.ascending then unsigned sort left right else negate (unsigned sort left right))
  unfolding compare_event_items
  compare_event_items-eq events sort i j left right e f = rw (compare_event_items, e, f) refl

  signed :
      (ascending : Bool) (p q : Ordering)
      → q ≡ negate p
      → p ≢ Ordering.eq
      → (((if ascending then p else negate p) ≡ Ordering.lt)
          × ((if ascending then q else negate q) ≡ Ordering.gt))
        ⊎ (((if ascending then p else negate p) ≡ Ordering.gt)
            × ((if ascending then q else negate q) ≡ Ordering.lt))
  signed true Ordering.lt q e ne = inl (refl, e)
  signed true Ordering.gt q e ne = inr (refl, e)
  signed true Ordering.eq q e ne = absurd (ne refl)
  signed false Ordering.lt q e ne = inr (refl, ap negate e)
  signed false Ordering.gt q e ne = inl (refl, ap negate e)
  signed false Ordering.eq q e ne = absurd (ne refl)

  -- What ListView_SortItems needs of its callback, where CompareStringOrdinal answers the mirrored
  -- question with the mirrored result: of two events of the store that have different numbers,
  -- `compare_event_items` puts one before the other, and the other behind it when it is asked the
  -- other way round, in every view, column and direction.
  pub compare_event_items_decides :
      (events : List TraceGlassEvent) (sort : SortState) (i j : ℕ) (left right : TraceGlassEvent)
      → get_elem? events i ≡ some left
      → get_elem? events j ≡ some right
      → left.sequence ≢ right.sequence
      → ((compare_event_items d events sort i j ≡ Ordering.lt)
          × (compare_event_items d events sort j i ≡ Ordering.gt))
        ⊎ ((compare_event_items d events sort i j ≡ Ordering.gt)
            × (compare_event_items d events sort j i ≡ Ordering.lt))
  compare_event_items_decides events sort i j left right e f ne =
      rw
        (
          compare_event_items-eq events sort i j left right e f,
          compare_event_items-eq events sort j i right left f e,
        )
        (signed sort.ascending (unsigned sort left right) (unsigned sort right left)
          (or_compare-negate _ _ _ _ (compare_columns-negate sort.view sort.column left right)
            (compare_numbers-negate left.sequence right.sequence))
          (λ same. ne (compare_numbers-eq left.sequence right.sequence (or_compare-eq _ _ same))))
