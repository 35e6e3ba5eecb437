-- ===== src/Lib.antt =====
-- emacZero: a model of the Python code that checks the Ethernet MAC in simulation.
--
-- The cocotb library under sim/cocotb/lib has three kinds of parts. Reference models say what the
-- hardware must do with a stimulus; drivers and monitors turn frames into the values of signals and
-- back; scoreboards compare what a monitor saw with what a model expects. A test builds frames, hands
-- them to a driver, and ends with the verdict of a scoreboard. The scripts under fpga/ drive a tester on the
-- board through JTAG: they pack its control word, read its counters and judge them.
--
-- Which file models which part:
--   Eth         sim/cocotb/lib/eth.py: pad_payload, fcs, fcs_bytes, fcs_ok and the framing constants
--   Csum.Sum    sim/cocotb/lib/csum.py: ones_sum, csum
--   Csum.Opts   csum.py: ip4_opts_skip
--   Csum.Draw   csum.py: random_opts
--   Csum.Packet csum.py: Packet and its methods build, _opts, _cut, _l4_csum, _l4_applies
--   Csum.Frame  csum.py: Packet.frame
--   Csum.Expect csum.py: Packet.expect, force_zero_l4_csum, pad60
--   Saf         sim/cocotb/lib/model.py: saf_expected, over the Segment of frame_gen.py
--   Scoreboard  model.py: Scoreboard; gmii_cdc_model.py: gmii_tx_expected
--   Rx          sim/cocotb/lib/rx_model.py: filter_pass, rx_expected, RxScoreboard
--   Gmii        sim/cocotb/lib/gmii_rx_driver.py: GmiiRxDriver
--   Mii         sim/cocotb/lib/mii_monitor.py: MiiMonitor
--   Cdc         sim/cocotb/lib/gmii_tx_driver.py, gmii_rx_cdc_driver.py, gmii_rx_cdc_monitor.py and
--               gmii_tx_monitor.py
--   Sink        sim/cocotb/lib/axis_sink.py: AxisSink
--   FrameGen    sim/cocotb/lib/frame_gen.py: boundary_sizes, random_size, random_segments,
--               directed_segments
--   Bench       what the benches share: Bus (the AXI-Stream input and its edges), Master
--               (axis_driver.py), Posedge (rx_loop.py and mii_bench.py), Negedge (rx_loop.py and
--               mac_sys_b.py), Paced, Capture and Crc (txpath_bench.py), Axil (axil_master.py), Checks
--               (bench.py), Delay (SettledWatch and InertialDelay of mac_sys_b.py), Period (clock_edges
--               of mac_sys_b.py, watch_edges of rgmii_tb.py)
--   Counters    fpga/zcu106/scripts/sfp_counters.py: read_eio, retry, the sessions and main
--   Loopback    fpga/zcu106/scripts/sfp_lb_test.py: Status (FIELDS), Board, Checks (Results,
--               clean_traffic), Scripts (the tests), Names and Program (main)
--   Session     the actions of a script on a board: state, exceptions, time and the calls of fcapz
--   Blast       fpga/zcu106/scripts/sfp_perf_test.py: BlastReceiver.run, report_rx
--   Selftest    fpga/arty_a7/scripts/rgmii_lb_selftest.py: SelfTest.write, set_tap, send_pause, start;
--               Results (FIELDS, clean), Pause (pause_tests), Taps (sweep, longest_run)
--   GmiiTest    fpga/arty_a7/scripts/gmii_lb_selftest.py: fcapz and its tries, read_status, main
--   SerialMonitor  fpga/arty_a7/scripts/serial_monitor.py: Ports, Report (the lines), Hex, Judge
--   Throughput  fpga/arty_a7/scripts/udp_throughput.py: monitor_uart, deltas, the exit code of main
--   LinuxBench  sw/linux/scripts/linux_bench.py: Console (run of both boards),
--               Snapshot, Ledger (accounting), Bench (iperf3, run_test, main)
--   Runner      sim/cocotb/run.py: discover, the runs and the exit code of main; Sources (vhdl_sources)
--   Base        list, number and Python helpers that the modules share
--   Examples    the theorems at concrete inputs
--
-- State and operations: a dataclass or a class with attributes is a record, and a method that changes
-- it returns the changed record. The local variables of a monitor's endless loop stand in its record,
-- and one turn of the loop is a function of one sampled cycle. A driver is the list of cycles that it
-- puts on the signals. An exception is a value of Base.Py.PyError, so an operation that can raise
-- returns a Result. Integers that the code never takes below zero are natural numbers; the masks and
-- shifts of the code are written out as remainders and quotients by powers of two. An error message is
-- a value of a data type that holds the numbers its text shows.
--
-- A script that drives a board is an action on a state: the output word, the words written, the rows,
-- the time and the number of calls so far. Times are in milliseconds (in nanoseconds for the PAUSE
-- checks), where the code has floating-point seconds; a sleep takes its time or longer, and each call
-- takes a time of its own.
--
-- Bounds: the loop of ones_sum has the sum itself as fuel, as each round lowers it; ip4_opts_skip and
-- random_opts have the length of the list, as each round moves on by a byte or more. That this is
-- enough is part of the theorems on them. The loops of wait_links and traffic have their timeout in
-- milliseconds as fuel, and the theorems say that they end for their reason; so has the progress loop
-- of gmii_lb_selftest, where the interval is not 0. A wait for tready or for a
-- valid has a number of edges as fuel; that it ends follows where the design answers within them.
--
-- Parameters: zlib.crc32 is a function from bytes to a number; random.Random is the record
-- Csum.Draw.Random, whose laws are the documented ranges of randrange and randint; what a comparison of
-- random() decides is a function of the generator's state. A design is the values of its outputs before
-- each rising edge, as a function of the edge's number. The fcapz host
-- library is the sequence of what its calls give or raise; the
-- fcapz command line is a function from the number of a run and its command to what it printed.
--
-- Not modelled: the waiting on the simulator's clock and its signal objects, which the sampled cycles
-- stand for; random_packet, whose result is any packet of the model; the clocks of the benches, but for the times of clock_edges, and the tests;
-- text that a script only prints; sockets, processes and serial ports, whose results are parameters; the
-- remaining board scripts and build_and_test.
pub mod Base
pub mod Eth
pub mod FrameGen
pub mod GmiiTest
pub mod Runner
pub mod Saf
pub mod Csum
pub mod Scoreboard
pub mod Rx
pub mod Sink
pub mod Gmii
pub mod LinuxBench
pub mod Loopback
pub mod Mii
pub mod Cdc
pub mod Counters
pub mod Bench
pub mod Blast
pub mod Selftest
pub mod SerialMonitor
pub mod Session
pub mod Throughput
pub mod Examples
