-- ===== src/Framer/Streams.antt =====
-- util_lib/generic_framer: the object with its array of streams.
use core_connect_binary.Base.{
  ℕ, zero, suc, ◌≤◌, ◌<◌, ◌^◌, ◌≡◌, ◌≢◌, refl, subst, ◌∙◌, List, [], ◌∷◌, some, some-injective,
  arith, ltb, if◌then◌else◌, length, get_elem?, set, replicate, Bytes, length-set, length-replicate,
  leb-true, leb-false, get_elem?-set_self, get_elem?-set_ne, get_elem?-eq_some,
}
use core_connect_binary.Framer.Defs.{
  StreamControl, GenericFramer, new_stream, generic_framer, parse_stream, parse_raw_rx_data, clear,
  clear_stream, stream_range, no_error, max_number_streams, min_frame_length,
}
use core_connect_binary.Framer.Spec.{idle, run}
use core_connect_binary.Framer.Refine.{view, IsValid}
use core_connect_binary.Framer.Theorems.{observe, outcome, parse_stream-run}

abbrev pub AllValid : ℕ → List StreamControl → Type 0
AllValid max [] = Unit
AllValid max (sc ∷ scs) = IsValid max sc × AllValid max scs

-- One valid control block for each stream, and as many streams as the class allows.
pub record IsFramer (max : ℕ) (f : GenericFramer) : Type 0 where
  pub counted : length f.sc ≡ f.number_of_streams
  pub bounded : f.number_of_streams ≤ max_number_streams
  pub streams : AllValid max f.sc

AllValid-get :
    {max : ℕ} (scs : List StreamControl) (i : ℕ) {sc : StreamControl}
    → AllValid max scs
    → get_elem? scs i ≡ some sc
    → IsValid max sc
AllValid-get [] i v e = cc
AllValid-get {max} (s ∷ scs) zero v e = subst (IsValid max) (some-injective _ _ e) v.0
AllValid-get (s ∷ scs) (suc i) v e = AllValid-get scs i v.1 e

AllValid-set :
    {max : ℕ} (scs : List StreamControl) (i : ℕ) {sc : StreamControl}
    → AllValid max scs
    → IsValid max sc
    → AllValid max (set scs i sc)
AllValid-set [] i v w = v
AllValid-set (s ∷ scs) zero v w = (w, v.1)
AllValid-set (s ∷ scs) (suc i) v w = (v.0, AllValid-set scs i v.1 w)

AllValid-replicate :
    {max : ℕ} (n : ℕ) {sc : StreamControl} → IsValid max sc → AllValid max (replicate n sc)
AllValid-replicate zero v = tt
AllValid-replicate (suc n) v = (v, AllValid-replicate n v)

-- The constructor makes a valid object for any arguments: at most 100 streams, and a limit of two
-- bytes at least, when `new` returns buffers of the requested size.
pub generic_framer-IsFramer :
    (storage : ℕ → Bytes) (number_of_streams max_rx_frame_length : ℕ)
    → ((n : ℕ) → length (storage n) ≡ n)
    → max_rx_frame_length < 2 ^ 16
    → IsFramer
        (if ltb max_rx_frame_length min_frame_length then min_frame_length else max_rx_frame_length)
        (generic_framer storage number_of_streams max_rx_frame_length)
unfolding generic_framer new_stream
generic_framer-IsFramer storage n max sized small = record {
  counted = length-replicate _ _;
  bounded = ground arith;
  streams = AllValid-replicate _ (record {
    stored = record { limit = refl; buffer = sized _; least = ground arith; small = ground arith };
    counted = tt;
  });
}

module _ {H : Type 0} (process_rx_frame : H → ℕ → Bytes → ℕ × H) (header_counted stream : ℕ) where
  pub parse_raw_rx_data-some :
      (f : GenericFramer) (h : H) (src : Bytes) {sc : StreamControl}
      → stream < f.number_of_streams
      → get_elem? f.sc stream ≡ some sc
      → parse_raw_rx_data process_rx_frame header_counted stream f h src ≡ (
          let (ret, sc', h') = parse_stream process_rx_frame header_counted stream sc h src in
          (ret, record f { sc = set f.sc stream sc' }, h'))
  unfolding parse_raw_rx_data
  parse_raw_rx_data-some f h src lt e = rw (leb-false {a = f.number_of_streams} lt, e) refl

  -- A call for a stream that the object has works on that stream's control block alone: the code and
  -- the host are those of the byte-by-byte framer on it, the block stands where that one stands, every
  -- other block is untouched, and the object is valid again.
  pub parse_raw_rx_data_lem :
      (max : ℕ) (f : GenericFramer) (h : H) (src : Bytes)
      → IsFramer max f
      → stream < f.number_of_streams
      → let (ret, f', h') = parse_raw_rx_data process_rx_frame header_counted stream f h src in
        (sc sc' : StreamControl) × (get_elem? f.sc stream ≡ some sc)
        × (get_elem? f'.sc stream ≡ some sc')
        × (observe (ret, sc', h')
            ≡ outcome (run process_rx_frame header_counted stream max (view sc) h src))
        × ((j : ℕ) → stream ≢ j → get_elem? f'.sc j ≡ get_elem? f.sc j)
        × IsFramer max f'
  parse_raw_rx_data_lem max f h src v lt =
      let (sc, e) = get_elem?-eq_some f.sc stream (omega (arith, v.counted)) in
      let sc' = (parse_stream process_rx_frame header_counted stream sc h src).1 in
      let r =
        parse_stream-run process_rx_frame header_counted stream max sc h src
          (AllValid-get f.sc stream v.streams e) in
      rw (parse_raw_rx_data-some f h src lt e) (
        sc,
        sc',
        e,
        get_elem?-set_self f.sc stream sc' (omega (arith, v.counted)),
        r.0,
        (λ j ne. get_elem?-set_ne f.sc sc' ne),
        record {
          counted = length-set f.sc stream sc' ∙ v.counted;
          bounded = v.bounded;
          streams = AllValid-set f.sc stream v.streams r.1;
        },
      )

  -- For any other stream number the call is refused, and nothing changes.
  pub parse_raw_rx_data_range :
      (f : GenericFramer) (h : H) (src : Bytes)
      → f.number_of_streams ≤ stream
      → parse_raw_rx_data process_rx_frame header_counted stream f h src ≡ (stream_range, f, h)
  unfolding parse_raw_rx_data
  parse_raw_rx_data_range f h src le = rw (leb-true {a = f.number_of_streams} le) refl

-- `clear` on a stream of the object drops what the stream has of a frame, and no other stream's.
pub clear_lem :
    (max : ℕ) (f : GenericFramer) (stream : ℕ)
    → IsFramer max f
    → stream < f.number_of_streams
    → let (ret, f') = clear f stream in
      (ret ≡ no_error)
      × ((sc : StreamControl) × (get_elem? f'.sc stream ≡ some sc) × (view sc ≡ idle))
      × ((j : ℕ) → stream ≢ j → get_elem? f'.sc j ≡ get_elem? f.sc j)
      × IsFramer max f'
unfolding clear clear_stream
clear_lem max f stream v lt =
    let (sc, e) = get_elem?-eq_some f.sc stream (omega (arith, v.counted)) in
    let sc' = clear_stream sc in
    let w = AllValid-get f.sc stream v.streams e in
    rw (leb-false {a = f.number_of_streams} lt, e)
      (
        refl,
        (sc', get_elem?-set_self f.sc stream sc' (omega (arith, v.counted)), refl),
        (λ j ne. get_elem?-set_ne f.sc sc' ne),
        record {
          counted = length-set f.sc stream sc' ∙ v.counted;
          bounded = v.bounded;
          streams =
              AllValid-set f.sc stream v.streams
                (record { stored = omega (arith, w.stored); counted = tt });
        },
      )
