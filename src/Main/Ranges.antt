-- ===== src/Main/Ranges.antt =====
-- Config.cpp, main.cpp: the numbers of a merged configuration are values of their C++ types.
use ccmock.Config.{Config}
