-- ===== src/Coverage.antt =====
-- `tb/coverage_report.py`: the report on the simulator's coverage database. The texts are lists of
-- character codes, the XML files trees, and a file that cannot be read or parsed is `none`.
pub mod Names
pub mod Xml
pub mod FileMap
pub mod Parse
pub mod Report
pub mod Ranges
pub mod Sums
pub mod Balance
pub mod Tallies
pub mod Agreement
pub mod OnLine
pub mod Naming
