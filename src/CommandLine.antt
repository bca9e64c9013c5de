-- ===== src/CommandLine.antt =====
-- src/main.cpp: the command line and the program. What the library cxxopts reads from the arguments is a
-- parameter, and so are its texts. The start of the logger is left out.
pub mod Options
pub mod Program
pub mod Outcome
