-- ===== src/StreamNode/Starts.antt =====
-- Which nodes the program starts, on any thread pool that keeps what Poco documents.
use door_switch_svr.Prelude.{
  append_assoc, append-nil, ℕ, zero, suc, ◌+◌, ◌<◌, ◌≤◌, List, [], ◌∷◌, ◌++◌, ◌≡◌, refl, sym, ◌∙◌,
  ◌≢◌, Option, none, some, arith, length, length-append, ap, Option-cases, inl, inr,
}
use door_switch_svr.Param.{Text}
use door_switch_svr.Poco.{ok, thrown, Result-cases}
use door_switch_svr.StreamNode.{CmdParam, Node, new_proxy, lib_init}
use door_switch_svr.Prelude.Int.{pos, u16}
use door_switch_svr.StreamNode.Program.{
  Args, parse_options, Row, CsvReader, node_of, read_rows, read_nodes, ThreadPool, at_join,
  start_again, start_node, start_all, main,
}

-- The nodes whose threads run, in the order of their starts: a node never ends, so a start takes a
-- thread for good; it fails only if none is free, and then changes nothing.
pub record IsThreadPool (threads : ThreadPool) : Type 0 where
  pub running : threads.Pool → List Node
  pub running-new_pool : running threads.new_pool ≡ []
  pub capacity-new_pool : 0 < threads.capacity threads.new_pool
  pub running-start :
      (node : Node) (p q : threads.Pool)
      → threads.start node p ≡ some q
      → running q ≡ running p ++ (node ∷ [])
  pub capacity-start :
      (node : Node) (p q : threads.Pool)
      → threads.start node p ≡ some q
      → threads.capacity q ≡ threads.capacity p
  pub start-free :
      (node : Node) (p : threads.Pool)
      → length (running p) < threads.capacity p
      → threads.start node p ≢ none
  pub start-full :
      (node : Node) (p q : threads.Pool)
      → threads.start node p ≡ some q
      → length (running p) < threads.capacity p
  pub running-add_capacity :
      (n : ℕ) (p : threads.Pool) → running (threads.add_capacity n p) ≡ running p
  pub capacity-add_capacity :
      (n : ℕ) (p : threads.Pool)
      → threads.capacity (threads.add_capacity n p) ≡ threads.capacity p + n

module _ (threads : ThreadPool) (laws : IsThreadPool threads) where
  -- No more nodes run than there are threads.
  record Fits (p : threads.Pool) : Type 0 where
    some_thread : 0 < threads.capacity p
    fits : length (laws.running p) ≤ threads.capacity p

  abbrev Started : Node → threads.Pool → Option threads.Pool → Type 0
  Started node p o =
      (q : threads.Pool) × (o ≡ some q) × (laws.running q ≡ laws.running p ++ (node ∷ [])) × Fits q

  started-Fits : (node : Node) (p q : threads.Pool) → threads.start node p ≡ some q → Fits q
  started-Fits node p q e =
      let r = laws.running-start node p q e in
      let c = laws.capacity-start node p q e in
      let free = laws.start-full node p q e in
      let l : length (laws.running q) ≡ length (laws.running p) + 1 =
        ap length r ∙ length-append (laws.running p) (node ∷ []) in
      record { some_thread = omega (arith, c, free); fits = omega (arith, l, c, free) }

  started :
      (node : Node) (p q : threads.Pool) → threads.start node p ≡ some q → Started node p (some q)
  started node p q e = (q, refl, laws.running-start node p q e, started-Fits node p q e)

  -- A second start, on twice the threads.
  start_grown :
      (node : Node) (p : threads.Pool)
      → Fits p
      → Started node p (threads.start node (threads.add_capacity (threads.capacity p) p))
  start_grown node p f =
      let g = threads.add_capacity (threads.capacity p) p in
      let same = laws.running-add_capacity (threads.capacity p) p in
      let room : length (laws.running g) < threads.capacity g = omega (
        arith,
        ap length same,
        laws.capacity-add_capacity (threads.capacity p) p,
        f.some_thread,
        f.fits,
      ) in
      elim (Option-cases (threads.start node g)) [
        | inl full ↦ absurd (laws.start-free node g room full)
        | inr (q, e) ↦ (
          q,
          e,
          laws.running-start node g q e ∙ ap (λ r. r ++ (node ∷ [])) same,
          started-Fits node g q e,
        )
      ]

  start_node-Started :
      (node : Node) (p : threads.Pool) → Fits p → Started node p (start_node threads node p)
  unfolding start_node start_again
  start_node-Started node p f = elim (Option-cases (threads.start node p)) [
    | inl full ↦ rw (full, start_again) (start_grown node p f)
    | inr (q, e) ↦ rw (e, start_again) (started node p q e)
  ]

  start_all-running :
      (nodes : List Node) (p : threads.Pool)
      → Fits p
      → (q : threads.Pool) × (start_all threads nodes p ≡ some q)
        × (laws.running q ≡ laws.running p ++ nodes)
  unfolding start_all
  start_all-running [] p f = (p, refl, sym (append-nil (laws.running p)))
  start_all-running (node ∷ nodes) p f =
      let (q, e, r, g) = start_node-Started node p f in
      let (q', e', r') = start_all-running nodes q g in
      rw (e, start_all)
        (q', e', r' ∙ ap (λ l. l ++ nodes) r ∙ append_assoc (laws.running p) (node ∷ []) nodes)

-- The rows of the file from the `k`-th on, to its end.
abbrev pub HasRows : CsvReader → Text → ℕ → List Row → Type 0
HasRows reader file k [] = reader.read_row file k ≡ ok none
HasRows reader file k (row ∷ rows) =
    (reader.read_row file k ≡ ok (some row)) × HasRows reader file (k + 1) rows

-- The nodes of the rows before the first that does not hold three numbers.
abbrev pub nodes_before : CmdParam → List Row → List Node
nodes_before param [] = []
nodes_before param (row ∷ rows) =
    let rest = nodes_before param rows in
    elim (node_of param row) [ thrown e ↦ [] | ok node ↦ node ∷ rest ]

before-thrown :
    (param : CmdParam) (row : Row) (rows : List Row) (what : Text)
    → node_of param row ≡ thrown what
    → nodes_before param (row ∷ rows) ≡ []
before-thrown param row rows what e = rw (nodes_before, e)

before-ok :
    (param : CmdParam) (row : Row) (rows : List Row) (node : Node)
    → node_of param row ≡ ok node
    → nodes_before param (row ∷ rows) ≡ node ∷ nodes_before param rows
before-ok param row rows node e = rw (nodes_before, e)

read_rows-nodes :
    (reader : CsvReader) (param : CmdParam) (fuel k : ℕ) (rows : List Row) (nodes : List Node)
    → HasRows reader param.test_file_path k rows
    → length rows < fuel
    → read_rows reader param fuel k nodes ≡ some (nodes ++ nodes_before param rows)
unfolding read_rows
read_rows-nodes reader param zero k rows nodes h f = elim f [ ]
read_rows-nodes reader param (suc fuel) k [] nodes h f =
    rw (h, read_rows) (ap some (sym (append-nil nodes)))
read_rows-nodes reader param (suc fuel) k (row ∷ rows) nodes h f =
    elim (Result-cases (node_of param row)) [
      | inl (what, e) ↦
          let none_more = before-thrown param row rows what e in
          rw (h.0, read_rows, e) (ap some (sym (ap (λ r. nodes ++ r) none_more ∙ append-nil nodes)))
      | inr (node, e) ↦
          let one_more = before-ok param row rows node e in
          rw (h.0, read_rows, e)
            (read_rows-nodes reader param fuel (k + 1) rows (nodes ++ (node ∷ [])) h.1 (omega arith)
              ∙ ap some (
                  append_assoc nodes (node ∷ []) (nodes_before param rows)
                  ∙ sym (ap (λ r. nodes ++ r) one_more)))
    ]

-- If the options can be parsed, and the test file can be opened, has the header and ends after
-- these rows, then with fuel above their number, and on any thread pool that keeps what Poco
-- documents, the program comes to its join with its client connected and exactly the nodes running
-- that stand in the rows before the first one without three numbers, in that order: doubling the
-- capacity once is always enough for the next start.
pub main_starts :
    (threads : ThreadPool) (laws : IsThreadPool threads) (args : Args) (unset : CmdParam)
    (reader : CsvReader) (fuel : ℕ) (rows : List Row)
    → let param = (parse_options (ok args) unset).0 in
      reader.open_file param.test_file_path ≡ ok tt
      → reader.read_header param.test_file_path ≡ ok tt
      → HasRows reader param.test_file_path 0 rows
      → length rows < fuel
      → (p : threads.Pool) × (main threads (ok args) unset reader fuel
          ≡ some (
              at_join
                (nodes_before param rows)
                p
                (new_proxy args.ip (pos (u16 args.port)) (lib_init ∷ []))))
        × (laws.running p ≡ nodes_before param rows)
unfolding main parse_options read_nodes
main_starts threads laws args unset reader fuel rows opened header has enough =
    let param = (parse_options (ok args) unset).0 in
    let (p, e, r) =
      start_all-running threads laws (nodes_before param rows) threads.new_pool (record {
        some_thread = laws.capacity-new_pool;
        fits = omega (arith, ap length laws.running-new_pool);
      }) in
    rw (opened, header, read_rows-nodes reader param fuel 0 rows [] has enough, e)
      (p, refl, r ∙ ap (λ l. l ++ nodes_before param rows) laws.running-new_pool)
